-- ===== src/Server/Routes/Credentials.antt =====
-- Who may extend a session, and what an answer to a creation gives away.
use quantum_bunker.Base.{
  ℕ, ◌+◌, ◌<◌, ◌≡◌, refl, arith, min, String, true, not, ◌&&◌, [], some, ◌==◌, ◌⊎◌, inl, inr,
  Bool-cases, Option-cases, nat_eq, string_eq,
}
use quantum_bunker.Base.Dict.{lookup, lookup-insert}
use quantum_bunker.Limits
use quantum_bunker.Shared.Text.{trim}
use quantum_bunker.Server.Session.{Session, SessionPeer}
use quantum_bunker.Server.Store.{Store, get, deref, write, save}
use quantum_bunker.Server.Store.Integrity.{Wf}
use quantum_bunker.Server.Create.{CreateSessionOptions, FreshIds, existing_session, given_id}
use quantum_bunker.Server.Create.Laws.{create_session_branches}
use quantum_bunker.Server.Security.{safe_equal}
use quantum_bunker.Server.Routes.{
  joined_existing, answer_created, post_session, RefreshHeaders, is_peer, refreshed, refresh_object,
  refresh_session,
}

-- The caller shows the recovery token of the session, or the token of one of its peers.
abbrev pub Entitled : (String → String) → RefreshHeaders → Session → Type 0
Entitled sha256 h o =
    (safe_equal sha256 h.host_token (some o.host_recovery_token) ≡ true)
    ⊎ ((id : String) × (p : SessionPeer) × (h.peer_id ≡ some id)
        × (lookup id o.peers ≡ some p)
        × (safe_equal sha256 h.peer_token p.token ≡ true))

is_peer-Entitled :
    (sha256 : String → String) (h : RefreshHeaders) (o : Session)
    → is_peer sha256 h o ≡ true
    → Entitled sha256 h o
unfolding is_peer
is_peer-Entitled sha256 h o peer = elim (Option-cases h.peer_id) [
  | inl absent ↦ absurd (ground (arith, absent, peer))
  | inr (id, e) ↦ elim (Option-cases (lookup id o.peers)) [
    | inl outside ↦ absurd (ground (arith, e, outside, peer))
    | inr (p, at) ↦ inr (id, p, e, at, ground (arith, e, at, peer))
  ]
]

-- A refresh either leaves the store as it is and answers 403, 404 or 409; or the caller shows the
-- session's recovery token or the token of one of its peers, somebody is present, and the session now
-- expires within 15 minutes from now and 24 hours from its creation, and is otherwise as before but
-- for the time of its last activity.
pub refresh_session_outcome :
    (sha256 : String → String) (now : ℕ) (h : RefreshHeaders) (id : String) (s : Store)
    → let (status, t) = refresh_session sha256 now h id s in
      ((t ≡ s) × ((status ≡ 403) ⊎ (status ≡ 404) ⊎ (status ≡ 409)))
      ⊎ ((status ≡ 200)
          × ((r : ℕ) × (o : Session) × (get (trim id) s ≡ some r)
              × (deref r s ≡ some o)
              × Entitled sha256 h o
              × (0 < o.participant_count)
              × (deref r t
                  ≡ some (record o {
                    expires_at =
                        min (now + Limits.default_ttl_ms) (o.created_at + Limits.max_ttl_ms);
                    last_activity_at = now;
                  }))))
unfolding refresh_session refresh_object deref write save refreshed
refresh_session_outcome sha256 now h id s = elim (Option-cases (get (trim id) s)) [
  | inl absent ↦ rw (absent, refresh_session) (inl (refl, inr (inl refl)))
  | inr (r, found) ↦ elim (Option-cases (deref r s)) [
    | inl dangling ↦ rw (found, refresh_session, dangling) (inl (refl, inr (inl refl)))
    | inr (o, at) ↦
        let host = safe_equal sha256 h.host_token (some o.host_recovery_token) in
        elim (Bool-cases (not host && not (is_peer sha256 h o))) [
          | inl outsider ↦
              inl (ground (arith, found, at, outsider), inl (ground (arith, found, at, outsider)))
          | inr insider ↦ elim (Bool-cases (o.participant_count == 0)) [
            | inl empty ↦ inl (
              ground (arith, found, at, insider, empty),
              inr (inr (ground (arith, found, at, insider, empty))),
            )
            | inr present ↦
                let entitled : Entitled sha256 h o = elim (Bool-cases host) [
                  | inl shown ↦ inl shown
                  | inr hidden ↦ is_peer-Entitled sha256 h o (ground (arith, insider, hidden))
                ] in
                let kept = lookup-insert r r (refreshed now o) s.heap in
                inr (
                  ground (arith, found, at, insider, present),
                  (
                    r,
                    o,
                    found,
                    at,
                    entitled,
                    ground (arith, present),
                    ground (arith, found, at, insider, present, kept),
                  ),
                )
          ]
        ]
  ]
]

-- A creation under an id that is open answers with the id and the expiry alone: neither the host's id
-- nor its recovery token, and changes nothing.
pub post_session_existing :
    (options : CreateSessionOptions) (now : ℕ) (f : FreshIds) (s : Store) (r : ℕ) (o : Session)
    → Wf s
    → existing_session (given_id options.id) s ≡ some r
    → deref r s ≡ some o
    → post_session options now f s ≡ (joined_existing o.id o.expires_at, s, [])
unfolding post_session answer_created
post_session_existing options now f s r o wf e at =
    let (open_already, _, _) = create_session_branches options now f s wf in
    let same = open_already r e in ground (arith, same, at)
