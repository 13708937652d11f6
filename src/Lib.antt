-- ===== src/Lib.antt =====
-- Quantum Bunker, a blind relay for encrypted chat vaults. This library models the relay server, what
-- it shares with its clients, and the client's channels, messages, files and settings.
--
-- A vault (session) is created over HTTP, and its peers talk through WebSockets: the transport admits
-- them, by the host's recovery token, a peer token, a membership token or the host's approval, and hands
-- the envelopes of admitted peers to the relay use case, which guards against replays and writes to the
-- other peers. A sweep removes the sessions that are due.
--
-- A client keeps a channel for each peer of its vault: a Noise handshake whose frames travel as signals
-- and pass through the paced send queue, mixed with a post-quantum secret, gives the root of a double
-- ratchet. A text is padded, sealed for each ready channel and sent over direct links or the relay; the
-- peer shows and confirms it. What cannot be sent waits in the outbox, and envelopes for absent peers
-- are held in the mailbox.
--
-- Which file models what:
--   Limits            src/backend/core/constants.ts, src/shared/contracts/v1/padding.ts
--   Shared/Membership src/shared/membership.ts
--   Server/Session, Server/Events, Server/Schemas
--                     src/shared/contracts/v1/session.ts, envelope.ts, events.ts, schemas.ts
--   Server/Store      src/backend/adapters/store/in-memory-session.store.ts
--   Server/Create     src/backend/application/use-cases/create-session.use-case.ts
--   Server/Cleanup    src/backend/application/use-cases/cleanup-sessions.use-case.ts
--   Server/Presence   src/backend/core/policies/presence.policy.ts
--   Server/Relay      src/backend/application/use-cases/relay-message.use-case.ts,
--                     src/backend/core/policies/relay.policy.ts
--   Server/RateLimit  src/backend/adapters/http/rate-limit.middleware.ts
--   Server/Security   src/backend/core/security.ts
--   Server/Transport  src/backend/adapters/transport/ws.transport.ts: the state and its helpers, and
--                     Slots (admitPeer and the presence), Join (the join frame), Host (accept, reject,
--                     kick), Messages (the message handler), Lifecycle (connections, closes, counters,
--                     disconnectSession, and the DELETE route of server.ts)
--   Server/Routes     server.ts, the routes on sessions
--   Client/SendQueue  src/transport/send-queue.ts
--   Client/P2pPolicy  src/transport/p2p-policy.ts
--   Client/Padding    src/crypto/message-padding.ts
--   Client/FileStream src/crypto/file-stream.ts
--   Client/Mailbox    src/peer-mailbox.ts
--   Client/Ratchet    src/crypto/double-ratchet.ts
--   Client/Noise      src/crypto/noise-primitives.ts, src/crypto/noise-xx.ts
--   Client/ChannelBasics
--                     src/crypto/hybrid-kem.ts, and the texts and bytes of src/crypto/peer-channels.ts
--   Client/PeerChannels
--                     src/crypto/peer-channels.ts: the handshakes; Traffic has the messages
--   Client/Outbox     src/outbox-store.ts
--   Client/Conversation
--                     src/useRelay.ts: the messages that are shown, with shouldUseP2P of
--                     src/transport/webrtc-mesh.ts and allConnected of src/useP2P.ts; Sending has what
--                     the user does, the outbox, and the peers that come and go
--   Client/Network    src/stun-settings.ts, src/transport/ice-config.ts
--   Client/Contacts   src/contacts-store.ts, src/contact-verification.ts
--   Shared/Fingerprints
--                     the fingerprints of src/shared/membership.ts
--   Shared/Text       the string operations of the language
--   Examples          every theorem at a concrete input
-- The other files of a folder hold the specifications and the proofs about the file of its name.
--
-- How the model stands to the code:
--   A `Map` or a `Record` is a list of entries in insertion order (the order of integer-like keys of an
--   object is not modelled). `record[key]` as a condition is `has_slot`, which also sees the names that
--   objects inherit. The store hands out references: session objects are in an explicit heap, and a
--   handler may write to an object that was deleted meanwhile. The awaits of the in-memory store
--   resolve at once, so one handler runs to its end; `Server.Store.Integrity.Step` has the steps of
--   the store in any order. What else happens during the awaits of a flush of the outbox is an argument. The clock is an argument, read once for each event; what sockets report is
--   one `Net`, fixed for one event. Differences of times are natural numbers: where the code would get
--   a negative number, its test fails as the model's does. The length of a text counts code points.
--   Frames are written to the list `out`, newest first; JSON is not modelled;
--   a member of a proof or a token that should be a number but is none is a `JsonNumber` without a value.
-- SHA-256, Ed25519, zod's uuid test, the decoding of tokens, URL parsing and random ids are parameters.
-- The client's tokens are counted in thousandths, so that they are whole numbers; bytes are lists of
-- numbers below 256. The AEADs, HKDF, X25519, ML-KEM, base64, UTF-8, and the JSON of payloads and headers,
-- are parameters.
-- Loops are structural over lists, but for two with fuel: the decimal print, with one more than the
-- number, which each step divides by ten; and the loop of `pump`, with the size of the queue, from which
-- each round takes an item.
--
-- Not modelled: the user interface and its other hooks, WebRTC and the calls' media, files and signals in
-- useRelay.ts, the client's other stores, the command line client, logging, and the static files and
-- headers of the HTTP server.
pub mod Base
pub mod Limits
pub mod Shared
pub mod Server
pub mod Examples
pub mod Client
