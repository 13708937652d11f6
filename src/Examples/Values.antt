-- ===== src/Examples/Values.antt =====
-- One vault with its host and a peer, a transport that talks to three sockets, and toy third-party
-- functions: a signature is the key with the message, and a hash is the text itself.
use quantum_bunker.Base.{ℕ, String, ◌<>◌, true, [], ◌∷◌, none, some, ◌==◌, string_eq, nat_eq}
use quantum_bunker.Shared.Membership.{
  Ed25519, KeyPair, MembershipToken, JoinProof, issue_membership_token, create_join_proof,
}
use quantum_bunker.Server.Session.{Session, SessionPeer, SessionStatus}
use quantum_bunker.Server.Store.{Store, empty_store, alloc, save}
use quantum_bunker.Server.Events.{RelayEnvelope, noise_message}
use quantum_bunker.Server.Relay.{RelayState}
use quantum_bunker.Server.Schemas.{RawJoin, JoinFrame, text, missing}
use quantum_bunker.Server.Transport.{Net, WsState, Client}

abbrev pub toy_ed25519 : Ed25519
toy_ed25519 = record {
  sign = λ secret m. secret <> m;
  verify = λ public m sig. some (sig == (public <> m));
}

abbrev pub carol_keys : KeyPair
carol_keys = record { public_key = "ck"; secret_key = "ck" }

abbrev pub carol_token : MembershipToken
carol_token = issue_membership_token toy_ed25519 "hk" "ck" "vault" 5000 100

abbrev pub carol_proof : JoinProof
carol_proof = create_join_proof toy_ed25519 carol_keys "vault" "carol" "n1" 990

abbrev pub seat_of : String → ℕ → String → SessionPeer
seat_of id seen token = record { id = id; joined_at = 0; last_seen_at = seen; token = some token }

abbrev pub vault : Session
vault = record {
  id = "vault";
  name = none;
  created_at = 0;
  expires_at = 900000;
  last_activity_at = 0;
  host_id = "alice";
  host_recovery_token = "secret";
  host_public_key = some "hk";
  peers = ("alice", seat_of "alice" 0 "ta") ∷ ("bob", seat_of "bob" 0 "tb") ∷ [];
  pending_peers = ("dave", record { id = "dave"; message = "hi"; requested_at = 5 }) ∷ [];
  status = SessionStatus.active;
  max_peers = 4;
  participant_count = 2;
  empty_since = none;
  is_group = true;
}

-- The store after the vault was opened.
abbrev pub opened : Store
opened = save 0 (alloc vault empty_store).1

abbrev pub one_session : Store
one_session = record {
  heap = (0, vault) ∷ [];
  next_ref = 1;
  sessions = ("vault", 0) ∷ [];
  deleted = [];
}

abbrev pub hello : RelayEnvelope
hello = record {
  session_id = "vault";
  from = "alice";
  type = noise_message;
  timestamp = 1000;
  nonce = "x1";
  payload = "c2VjcmV0";
}

abbrev pub relay_state : RelayState
relay_state = record { store = one_session; seen_nonces = []; events = [] }

-- Every socket is open and takes what is written.
abbrev pub net : Net
net = record {
  now = 1000;
  is_open = λ ws. true;
  buffered = λ ws. 0;
  accepts = λ ws. true;
  new_token = "fresh";
  sha256 = λ s. s;
  is_uuid = λ s. s == "vault";
  decode_token = λ s. some carol_token;
  ed25519 = toy_ed25519;
}

abbrev pub client_of : String → Client
client_of p = record {
  peer_id = some p;
  session_id = some "vault";
  msg_count = 0;
  msg_window_start = 900;
}

abbrev pub stranger : Client
stranger = record { peer_id = none; session_id = none; msg_count = 0; msg_window_start = 900 }

-- The host speaks on socket 1, the peer on socket 2, and socket 3 has not joined.
abbrev pub state : WsState
state = record {
  relay = relay_state;
  connections = ("vault:alice", 1) ∷ ("vault:bob", 2) ∷ [];
  session_peers = ("vault", "alice" ∷ "bob" ∷ []) ∷ [];
  message_counters = [];
  ip_counters = [];
  used_proof_nonces = [];
  clients = (1, client_of "alice") ∷ (2, client_of "bob") ∷ (3, stranger) ∷ [];
  out = [];
}

abbrev pub carol_raw : RawJoin
carol_raw = record {
  session_id = text "vault";
  peer_id = text "carol";
  message = missing;
  host_recovery_token = missing;
  peer_token = missing;
  membership_token = text "token";
  join_proof = some carol_proof;
}

-- The host's recovery token, shown by another device.
abbrev pub recovery_raw : RawJoin
recovery_raw = record {
  session_id = text "vault";
  peer_id = text "alice2";
  message = missing;
  host_recovery_token = text "secret";
  peer_token = missing;
  membership_token = missing;
  join_proof = none;
}

abbrev pub guest_frame : String → JoinFrame
guest_frame id = record {
  session_id = "vault";
  peer_id = id;
  message = none;
  host_recovery_token = none;
  peer_token = none;
  membership_token = none;
  join_proof = none;
}
