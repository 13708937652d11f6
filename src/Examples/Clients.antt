-- ===== src/Examples/Clients.antt =====
-- Runs of the client's code.
use quantum_bunker.Base.{
  ℕ, ◌+◌, ◌-◌, ◌*◌, ◌≤◌, ◌<◌, String, ◌≡◌, ◌≢◌, refl, arith, false, List, [], ◌∷◌, ◌++◌, none, some,
  length, drop, replicate, nat_eq, string_eq, ◌⊎◌,
}
use quantum_bunker.Base.Dict.{Dict}
use quantum_bunker.Client.SendQueue.{noise, call, Sender, new_sender, pump, size}
use quantum_bunker.Client.SendQueue.Order.{Sends, pump-Sends}
use quantum_bunker.Client.SendQueue.Pacing.{
  SendOp, enqueues, fires, pauses, resumes, run, Sane, run-within,
}
use quantum_bunker.Client.P2pPolicy.{
  idle, ensure, offer, open_channel, fail, is_connected, link_after,
}
use quantum_bunker.Client.P2pPolicy.Links.{up_after, link_after-connected}
use quantum_bunker.Client.Padding.{pad_plaintext, unpad_plaintext, unpadded}
use quantum_bunker.Client.Padding.Sizes.{unpad_plaintext-pad}
use quantum_bunker.Client.FileStream.{
  Bytes, StreamCrypto, FileStreamInit, new_receiver, stream_init, stream_frames, chunk_count,
  accept_all, result_bytes, whole, concat_bytes,
}
use quantum_bunker.Client.FileStream.Transfer.{CryptoWorks, result_bytes-stream}
use quantum_bunker.Client.FileStream.Receiving.{AuthenticFrom, announced, result_bytes-authentic}
use quantum_bunker.Client.Mailbox.{MailboxEntry, release}
use quantum_bunker.Client.Mailbox.Replays.{waiting_for, waiting_at, release-waiting}
use quantum_bunker.Examples.Texts.{text_of, bytes_from, bytes_from-text_of}
use quantum_bunker.Examples.Values.{hello}

abbrev sender : Sender String
sender = new_sender 6 0

abbrev ops : List (ℕ × SendOp String)
ops =
    (5, enqueues "ice" call)
    ∷ (6, enqueues "hs" noise)
    ∷ (7, pauses)
    ∷ (9, resumes)
    ∷ (900, fires)
    ∷ []

sender-Sane : Sane 6 0 sender
unfolding new_sender
sender-Sane = record { past = omega arith; within = omega arith }

run-within_example :
    1000 * length (run 6 ops sender).sent ≤ 1000 * length sender.sent + 1000 * 6 + (900 - 0) * 6
run-within_example = run-within 6 0 ops 900 sender sender-Sane (omega arith)

-- A sender that runs and holds a handshake frame and a candidate.
abbrev loaded : Sender String
loaded = record {
  lanes = ("hs" ∷ []) ∷ [] ∷ [] ∷ ("ice" ∷ []) ∷ [];
  tokens = 500;
  last_refill = 0;
  timer = none;
  paused = false;
  sent = [];
}

pump-Sends_example :
    (xs : List String) × Sends 6 xs loaded (pump 6 100 loaded)
    × ((size (pump 6 100 loaded).lanes ≡ 0)
        ⊎ (((pump 6 100 loaded).tokens < 1000) × ((pump 6 100 loaded).timer ≢ none)))
pump-Sends_example = pump-Sends 6 100 loaded refl

link_after-connected_example :
    is_connected (link_after idle (ensure ∷ offer ∷ open_channel ∷ fail ∷ []))
    ≡ up_after (is_connected idle) (ensure ∷ offer ∷ open_channel ∷ fail ∷ [])
link_after-connected_example = link_after-connected idle (ensure ∷ offer ∷ open_channel ∷ fail ∷ [])

unpad_plaintext-pad_example :
    unpad_plaintext (pad_plaintext (7 ∷ 0 ∷ 0 ∷ [])) ≡ unpadded (7 ∷ 0 ∷ 0 ∷ [])
unpad_plaintext-pad_example = unpad_plaintext-pad (7 ∷ 0 ∷ 0 ∷ []) (omega arith)

abbrev three : List ℕ
three = 7 ∷ 0 ∷ 0 ∷ []

-- A seal is a tag of sixteen zeros ahead of the chunk.
abbrev toy_crypto : StreamCrypto
toy_crypto = record {
  seal = λ key n plain ad. replicate 16 0 ++ plain;
  unseal = λ key n sealed ad. some (drop 16 sealed);
  hkdf_first = λ file_id file_key. file_key;
  to_base64 = text_of;
  from_base64 = bytes_from 0;
}

toy_crypto-CryptoWorks : CryptoWorks toy_crypto
toy_crypto-CryptoWorks = record {
  opens = λ key n plain ad. refl;
  tagged = λ key n plain ad. omega arith;
  decodes = bytes_from-text_of;
}

abbrev toy_id : Bytes
toy_id = replicate 16 9

abbrev toy_init : FileStreamInit
toy_init = stream_init toy_crypto toy_id (5 ∷ []) three

three_chunks : chunk_count (length three) < 4294967296
unfolding chunk_count
three_chunks = ground arith

result_bytes-stream_example :
    result_bytes toy_init (
      accept_all toy_crypto toy_init
        (stream_frames toy_crypto toy_id (5 ∷ []) three)
        (new_receiver toy_init))
    ≡ whole three
result_bytes-stream_example =
    result_bytes-stream toy_crypto toy_id (5 ∷ []) three toy_crypto-CryptoWorks refl three_chunks

three_returned :
    result_bytes toy_init (
      accept_all toy_crypto toy_init
        (stream_frames toy_crypto toy_id (5 ∷ []) three)
        (new_receiver toy_init))
    ≡ whole three
three_returned =
    result_bytes-stream toy_crypto toy_id (5 ∷ []) three toy_crypto-CryptoWorks refl three_chunks

result_bytes-authentic_example :
    (parts : List Bytes) × (concat_bytes parts ≡ three)
    × (length parts ≡ toy_init.chunks)
    × AuthenticFrom toy_crypto toy_init 0 parts
    × (length three ≡ announced toy_crypto toy_init)
result_bytes-authentic_example =
    result_bytes-authentic toy_crypto toy_init (stream_frames toy_crypto toy_id (5 ∷ []) three)
      three three_returned

abbrev held : Dict String MailboxEntry
held =
    (
      "x1",
      record { nonce = "x1"; envelope = hello; recipients = "bob" ∷ "carol" ∷ []; stored_at = 10 },
    )
    ∷ []

release-waiting_example :
    ((release 20 "bob" held).0 ≡ waiting_at 20 "bob" held)
    × (waiting_for "carol" (release 20 "bob" held).1 ≡ waiting_at 20 "carol" held)
unfolding string_eq
release-waiting_example = release-waiting 20 "bob" "carol" held
