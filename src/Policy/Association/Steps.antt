-- ===== src/Policy/Association/Steps.antt =====
-- The life of a registry (internal/policy/association): steps in any order, by any callers, each of
-- them one critical section.
use traffic_forwarding_panel.Prelude.{
  ℕ, ◌+◌, ◌<◌, ◌^◌, ◌≡◌, refl, false, Option, some, List, arith, ◌==◌, inl, inr,
}
use traffic_forwarding_panel.Prelude.Int.{ℤ}
use traffic_forwarding_panel.Prelude.Fallible.{ok, Fallible-cases}
use traffic_forwarding_panel.Prelude.Assoc.{lookup}
use traffic_forwarding_panel.Policy.Association.{
  Library, AddrPort, Binding, Session, Registry, new, reconfigure, configure, canonical_bindings,
  count_key,
}
use traffic_forwarding_panel.Policy.Association.Operations.{
  mentions, revoke_rule, revoke_generation, revoke_all, count, Proof, valid_for, admission,
  open_session, announce, confirm, close,
}
use traffic_forwarding_panel.Policy.Association.Invariant.{IsSound}
use traffic_forwarding_panel.Policy.Association.Preserved.{
  prune-IsSound, revoke-IsSound, revoke_all-IsSound, valid_for-IsSound, announce-IsSound,
  close-IsSound,
}
use traffic_forwarding_panel.Policy.Association.Configured.{reconfigure-IsSound}
use traffic_forwarding_panel.Policy.Association.Sessions.{open_session-IsSound, confirm-IsSound}
use traffic_forwarding_panel.Policy.Association.Proofs.{admission-IsSound}

module _ (lib : Library) where
  -- What happens while a configuration is in force. A session is confirmed once, and fewer than
  -- 2^64 sessions are opened.
  pub data Step (r : Registry) : Registry → Type 0 where
    revoked : (rule : ℕ) → Step r (revoke_rule rule r)
    rotated : (generation : ℕ) → Step r (revoke_generation generation r)
    revoked_all : Step r (revoke_all r)
    counted : (now : ℕ) → Step r (count now r).1
    checked :
        (now : ℕ) (p : Option Proof) (rule generation target : ℕ)
        → Step r (valid_for now p rule generation target r).1
    admitted :
        (now rule generation : ℕ) (source : AddrPort) (target : ℕ) (payload : List ℕ)
        → Step r (admission lib now rule generation source target payload r).1
    opened :
        (now peer : ℕ) (bindings : List Binding)
        → r.next + 1 < 2 ^ 64
        → Step r (open_session lib now peer bindings r).1
    announced : (id port : ℕ) → Step r (announce id port r)
    confirmed :
        (now id : ℕ) (endpoint : AddrPort)
        → ((s : Session) → lookup id r.sessions ≡ some s → s.ready ≡ false)
        → Step r (confirm now id endpoint r).1
    closed : (id : ℕ) → Step r (close id r)

  pub data Serves (r : Registry) : Registry → Type 0 where
    here : Serves r r
    next : {s t : Registry} → Serves r s → Step s t → Serves r t

  -- From an empty registry, with configurations in between.
  pub data Reaches (limit ttl : ℤ) : Registry → Type 0 where
    start : Reaches limit ttl (new limit ttl)
    serve : {r r' : Registry} → Reaches limit ttl r → Step r r' → Reaches limit ttl r'
    configured :
        {r r' : Registry} (now : ℕ) (bindings : List Binding)
        → Reaches limit ttl r
        → configure lib now bindings r ≡ ok r'
        → Reaches limit ttl r'

  new-IsSound : (limit ttl : ℤ) → IsSound (new limit ttl)
  unfolding new count_key
  new-IsSound limit ttl = record {
    has_capacity = record { capacity = omega arith; distinct = tt; fresh = λ id lt. refl };
    backed = tt;
    bounded = λ k. omega arith;
  }

  pub Step-IsSound : {r r' : Registry} → Step r r' → IsSound r → IsSound r'
  unfolding revoke_rule revoke_generation count
  Step-IsSound {r} (revoked rule) h = revoke-IsSound (mentions rule) r h
  Step-IsSound {r} (rotated generation) h = revoke-IsSound (λ b. b.generation == generation) r h
  Step-IsSound {r} revoked_all h = revoke_all-IsSound r h
  Step-IsSound {r} (counted now) h = prune-IsSound now r h
  Step-IsSound {r} (checked now p rule generation target) h =
      valid_for-IsSound now p rule generation target r h
  Step-IsSound {r} (admitted now rule generation source target payload) h =
      admission-IsSound lib now rule generation source target payload r h
  Step-IsSound {r} (opened now peer bindings small) h =
      open_session-IsSound lib now peer bindings r small h
  Step-IsSound {r} (announced id port) h = announce-IsSound id port r h
  Step-IsSound {r} (confirmed now id endpoint once) h = confirm-IsSound now id endpoint r once h
  Step-IsSound {r} (closed id) h = close-IsSound id r h

  configure-IsSound :
      (now : ℕ) (bindings : List Binding) (r r' : Registry)
      → configure lib now bindings r ≡ ok r'
      → IsSound r
      → IsSound r'
  unfolding configure
  configure-IsSound now bindings r r' e h =
      elim (Fallible-cases (canonical_bindings lib bindings)) [
        | inl (why, c) ↦ absurd (ground arith)
        | inr (allowed, c) ↦
            let same : reconfigure now allowed r ≡ r' = ground arith in
            rw (← same) (reconfigure-IsSound now allowed r h)
      ]

  pub Serves-IsSound : {r r' : Registry} → IsSound r → Serves r r' → IsSound r'
  Serves-IsSound h here = h
  Serves-IsSound h (next run step) = Step-IsSound step (Serves-IsSound h run)

  -- However the registry got where it is: its sessions are within its limit, each index entry
  -- belongs to a ready session with the same binding and peer, and no key has more than 32 entries.
  pub Reaches-IsSound : {limit ttl : ℤ} {r : Registry} → Reaches limit ttl r → IsSound r
  Reaches-IsSound {limit} {ttl} start = new-IsSound limit ttl
  Reaches-IsSound (serve run step) = Step-IsSound step (Reaches-IsSound run)
  Reaches-IsSound {r = r'} (configured {r = r} now bindings run e) =
      configure-IsSound now bindings r r' e (Reaches-IsSound run)
