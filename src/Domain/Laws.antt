-- ===== src/Domain/Laws.antt =====
-- The status machine's tests and the priority names of internal/domain/notification.go.
use event_driven_notificatio.Prelude.{
  ℕ, zero, suc, ◌≤◌, String, true, false, ◌≡◌, ◌↔◌, ◌⊎◌, arith, eq_iff, refl,
}
use event_driven_notificatio.Domain.Notification.{
  Channel, is_valid, priority_from_string, priority_string, Status, is_final, can_cancel,
  processing,
}

-- A channel is valid exactly if it is one of the three names.
pub is_valid_iff :
    (c : Channel) → (is_valid c ≡ true) ↔ ((c ≡ "sms") ⊎ ((c ≡ "email") ⊎ (c ≡ "push")))
unfolding is_valid
is_valid_iff c = ground (arith, eq_iff c "sms", eq_iff c "email", eq_iff c "push")

parse-print : (p : ℕ) → p ≤ 2 → priority_from_string (priority_string p) ≡ p
unfolding priority_from_string priority_string
parse-print zero h = refl
parse-print (suc zero) h = refl
parse-print (suc (suc zero)) h = refl
parse-print (suc (suc (suc p))) h = absurd (omega arith)

parse-le : (s : String) → priority_from_string s ≤ 2
unfolding priority_from_string
parse-le s = ground arith

-- A priority that is at most 2 survives printing and parsing, and parsing any text gives a
-- priority that is at most 2.
pub priority_round_trip :
    (p : ℕ) (s : String)
    → p ≤ 2
    → (priority_from_string (priority_string p) ≡ p) × (priority_from_string s ≤ 2)
priority_round_trip p s h = (parse-print p h, parse-le s)

-- Every status is exactly one of: final, cancellable, or `processing`.
pub status_trichotomy :
    (s : Status)
    → ((is_final s ≡ true) × (can_cancel s ≡ false))
      ⊎ (((is_final s ≡ false) × (can_cancel s ≡ true))
          ⊎ ((s ≡ processing) × ((is_final s ≡ false) × (can_cancel s ≡ false))))
unfolding is_final can_cancel
status_trichotomy s = ground arith
