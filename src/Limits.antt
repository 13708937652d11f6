-- ===== src/Limits.antt =====
-- src/backend/core/constants.ts and src/shared/contracts/v1/padding.ts: the limits both sides use.
-- The values that the environment may override (`envInt`) are taken at their defaults.
use quantum_bunker.Base.{ℕ, ◌*◌, List, [], ◌∷◌}

abbrev pub max_peers : ℕ
max_peers = 10

abbrev pub default_ttl_ms : ℕ
default_ttl_ms = 15 * 60 * 1000

abbrev pub max_ttl_ms : ℕ
max_ttl_ms = 24 * 60 * 60 * 1000

abbrev pub reconnect_grace_ms : ℕ
reconnect_grace_ms = 30 * 1000

abbrev pub inactivity_ttl_ms : ℕ
inactivity_ttl_ms = 30 * 60 * 1000

abbrev pub empty_session_ttl_ms : ℕ
empty_session_ttl_ms = 5 * 60 * 1000

abbrev pub max_pending_peers : ℕ
max_pending_peers = 10

abbrev pub max_active_sessions : ℕ
max_active_sessions = 10000

abbrev pub max_payload_bytes : ℕ
max_payload_bytes = 16 * 1024 * 1024

abbrev pub file_chunk_bytes : ℕ
file_chunk_bytes = 64 * 1024

abbrev pub timestamp_tolerance_ms : ℕ
timestamp_tolerance_ms = 60 * 1000

abbrev pub msg_per_second_limit : ℕ
msg_per_second_limit = 10

abbrev pub socket_msg_per_second_limit : ℕ
socket_msg_per_second_limit = 20

abbrev pub conn_per_ip_limit : ℕ
conn_per_ip_limit = 50

abbrev pub conn_window_ms : ℕ
conn_window_ms = 60 * 1000

abbrev pub max_buffered_bytes : ℕ
max_buffered_bytes = 24 * 1024 * 1024

abbrev pub nonce_cache_max : ℕ
nonce_cache_max = 50000

abbrev pub length_prefix_bytes : ℕ
length_prefix_bytes = 4

abbrev pub padding_buckets : List ℕ
padding_buckets = (8 * 1024) ∷ (64 * 1024) ∷ (512 * 1024) ∷ (4 * 1024 * 1024) ∷ []
