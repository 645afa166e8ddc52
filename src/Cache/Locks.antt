-- ===== src/Cache/Locks.antt =====
-- SetNX of internal/adapter/cache/redis.go as a lock with a time limit.
use text.Mathlib.TextPositions.{eq_refl}
use event_driven_notificatio.Prelude.{
  ℕ, suc, ◌+◌, ◌≡◌, ◌≢◌, refl, String, true, false, none, is_some, leb, if◌then◌else◌, arith,
  Bool-cases, inl, inr,
}
use event_driven_notificatio.Domain.Errors.{ok}
use event_driven_notificatio.Cache.{Keys, live_value, get, set_nx}

held_refuses :
    (key value : String) (ttl now : ℕ) (keys : Keys)
    → is_some (live_value now (keys key)) ≡ true
    → (set_nx none now key value ttl keys).0 ≢ ok true
unfolding set_nx
held_refuses key value ttl now keys held = rw held (λ h. cc)

-- Of two SetNX on a key, the second is refused while the time of the first runs, and the key keeps the
-- first's value; from then on it is taken, and the key has the second's.
pub set_nx_excludes :
    (key a b : String) (ttl ttl' now later : ℕ) (keys : Keys)
    → (set_nx none now key a (suc ttl) keys).0 ≡ ok true
    → let keys1 = (set_nx none now key a (suc ttl) keys).1 in
      let (answer, keys2) = set_nx none later key b (suc ttl') keys1 in
      (answer ≡ ok (leb (now + suc ttl) later))
      × (get none later key keys2 ≡ ok (if leb (now + suc ttl) later then b else a))
unfolding set_nx get
set_nx_excludes key a b ttl ttl' now later keys h =
    elim (Bool-cases (is_some (live_value now (keys key)))) [
      | inl y ↦ absurd (held_refuses key a (suc ttl) now keys y h)
      | inr k ↦ rw k (
          rw (eq_refl key) (elim (Bool-cases (leb (now + suc ttl) later)) [
            | inl e ↦ rw e (
                rw (eq_refl key) (
                  refl,
                  let late : leb (later + suc ttl') later ≡ false = ground arith in rw late refl,
                ))
            | inr e ↦ rw e (rw (eq_refl key) (refl, rw e refl))
          ]))
    ]
