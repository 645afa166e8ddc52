-- ===== src/RateLimit/Tracks.antt =====
-- The sorted set of pkg/ratelimit/limiter.go against the log of the requests let through.
use event_driven_notificatio.Prelude.{
  ℕ, ◌+◌, ◌≤◌, ◌<◌, String, ◌≡◌, refl, Option, none, some, List, [], ◌∷◌, ◌++◌, length,
  length-append, filterb, filterb-append, All, All-append, ltb, leb, if◌then◌else◌, arith,
  Bool-cases, inl, inr, sym, ltb→lt, leb→le,
}
use event_driven_notificatio.RateLimit.{
  Window, current, expired, purge, zadd, sliding_window_script,
}
use event_driven_notificatio.RateLimit.History.{
  Request, in_window, live, Differs, Outlives, filter-live_mono, filter-live_dead, count-le-live,
  count_now, filter-Differs,
}

-- The set under the key is what the log has in the window that ends at the last call, and no
-- window of the log holds more than `limit` requests.
pub record Tracks (limit window last : ℕ) (w : Window) (log : List Request) : Type 0 where
  pub kept : w.members ≡ filterb (live window last) log
  pub past : All (λ r. r.1 ≤ last) log
  pub outlived : Outlives window w.expires_at log
  pub within : (t : ℕ) → length (filterb (in_window window t) log) ≤ limit

All-past_mono :
    (last now : ℕ) (log : List Request)
    → last ≤ now
    → All (λ r. r.1 ≤ last) log
    → All (λ r. r.1 ≤ now) log
All-past_mono last now [] h p = tt
All-past_mono last now (r ∷ log) h p = (omega arith, All-past_mono last now log h p.1)

purge-current :
    (limit window last now : ℕ) (w : Window) (log : List Request)
    → Tracks limit window last w log
    → last ≤ now
    → purge window now (current now w) ≡ filterb (live window now) log
unfolding purge current
purge-current limit window last now w log v h = go w.expires_at v.outlived
  where
    go :
        (e : Option ℕ)
        → Outlives window e log
        → filterb (live window now) (if expired e now then [] else w.members)
          ≡ filterb (live window now) log
    go none o = rw v.kept (filter-live_mono window last now log h)
    go (some e) o = elim (Bool-cases (ltb e now)) [
      | inl t ↦ rw t (sym (filter-live_dead window e now log o (ltb→lt e now t)))
      | inr f ↦ rw (f, v.kept) (filter-live_mono window last now log h)
    ]

Outlives-append :
    (window now : ℕ) (id : String) (log : List Request)
    → All (λ r. r.1 ≤ now) log
    → All (λ r. r.1 + window ≤ now + window) (log ++ (id, now) ∷ [])
Outlives-append window now id [] p = (omega arith, tt)
Outlives-append window now id (r ∷ log) p = (omega arith, Outlives-append window now id log p.1)

-- One more request in the log: no window holds too many, if the one that ends now does not.
within-append :
    (limit window now : ℕ) (id : String) (log : List Request)
    → ((t : ℕ) → length (filterb (in_window window t) log) ≤ limit)
    → length (filterb (live window now) log) < limit
    → (t : ℕ) → length (filterb (in_window window t) (log ++ (id, now) ∷ [])) ≤ limit
within-append limit window now id log w h t =
    rw (filterb-append (in_window window t) log ((id, now) ∷ [])) (
      rw length-append (elim (Bool-cases (leb now t)) [
        | inl p ↦ ground (arith, count-le-live window t now log (leb→le now t p))
        | inr q ↦ ground (arith, w t)
      ]))

granted-Tracks :
    (limit window now : ℕ) (id : String) (log : List Request)
    → 0 < window
    → All (λ r. Differs r (id, now)) log
    → All (λ r. r.1 ≤ now) log
    → ((t : ℕ) → length (filterb (in_window window t) log) ≤ limit)
    → length (filterb (live window now) log) < limit
    → Tracks limit window now
        (record {
          members = zadd id now (filterb (live window now) log);
          expires_at = some (now + window);
        })
        (log ++ (id, now) ∷ [])
unfolding zadd
granted-Tracks limit window now id log pos d p w h = record {
  kept =
      rw (filter-Differs id now (live window now) log d)
        (rw (filterb-append (live window now) log ((id, now) ∷ [])) (ground arith));
  past = All-append (λ r. r.1 ≤ now) log ((id, now) ∷ []) p (omega arith, tt);
  outlived = Outlives-append window now id log p;
  within = within-append limit window now id log w h;
}

refused-Outlives :
    (window now : ℕ) (e : Option ℕ) (log : List Request)
    → Outlives window e log
    → Outlives window (if expired e now then none else e) log
unfolding expired
refused-Outlives window now none log o = tt
refused-Outlives window now (some e) log o = elim (Bool-cases (ltb e now)) [
  | inl t ↦ rw t tt
  | inr f ↦ rw f o
]

-- A call decides by the history: it grants exactly if the window that ends at its time has room,
-- and the set goes on tracking the log.
pub script-Tracks :
    (limit window last now : ℕ) (id : String) (w : Window) (log : List Request)
    → Tracks limit window last w log
    → last ≤ now
    → 0 < window
    → All (λ r. Differs r (id, now)) log
    → let (granted, w') = sliding_window_script limit window now id w in
      (granted ≡ ltb (length (filterb (in_window window now) log)) limit)
      × Tracks limit window now w' (if granted then log ++ (id, now) ∷ [] else log)
unfolding sliding_window_script
script-Tracks limit window last now id w log v h pos d =
    let p = All-past_mono last now log h v.past in
    rw (purge-current limit window last now w log v h) (
      rw (count_now window now log p)
        (elim (Bool-cases (ltb (length (filterb (live window now) log)) limit)) [
          | inl t ↦
              rw t (refl, granted-Tracks limit window now id log pos d p v.within (ltb→lt _ _ t))
          | inr f ↦ rw f (
            refl,
            record {
              kept = refl;
              past = p;
              outlived = refused-Outlives window now w.expires_at log v.outlived;
              within = v.within;
            },
          )
        ]))
