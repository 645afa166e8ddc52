-- ===== src/Config/Port.antt =====
-- The text that intToStr of internal/config/config.go writes, read back.
use Prim.Native.String.{String}
use Prim.Native.Char.{code}
use mathlib.Core.Logic.{dite}
use mathlib.Core.WellFounded.{Acc}
use native.Mathlib.Decide.{dec_lt}
use event_driven_notificatio.Prelude.{
  ℕ, ◌+◌, ◌*◌, ◌/◌, ◌%◌, ◌^◌, ◌<◌, ◌≡◌, refl, true, ℤ, pos, negsuc, Option, none, some, arith, ◌==◌,
  Bool-cases, inl, inr, ◌⊎◌, lt→ltb, ◌-◌, ◌∙◌, ap,
}
use event_driven_notificatio.Prelude.Decimal.{
  digit, is_digit, digits_value, non_negative, starts_digit, atoi, atoi-unsigned,
}
use event_driven_notificatio.Config.{write_digits, smaller_ints, int_to_str}

digits_value-digit :
    (acc n : ℕ) (s : String)
    → digits_value acc (String.◌∷◌ (digit n) s) ≡ digits_value (acc * 10 + n % 10) s
unfolding digits_value digit
digits_value-digit acc n s =
    let d : is_digit (b'0' + n % 10) ≡ true = ground arith in
    let e : b'0' + n % 10 - b'0' ≡ n % 10 = omega arith in rw d (rw e refl)

digits_value-write_digits :
    (n : ℕ) (s : String) (w : Acc ◌<◌ n) → digits_value 0 (write_digits n s w) ≡ digits_value n s
unfolding write_digits
digits_value-write_digits n s (Acc.intro _ smaller) =
    elim (dec_lt 0 n)
      as (λ d.
        digits_value 0 (
          dite d
            (λ h. write_digits (n / 10) (String.◌∷◌ (digit n) s) (smaller (n / 10) (omega arith)))
            (λ _. s))
        ≡ digits_value n s) [
          | yes h ↦
              digits_value-write_digits (n / 10) (String.◌∷◌ (digit n) s)
                (smaller (n / 10) (omega arith))
              ∙ (digits_value-digit (n / 10) n s
                  ∙ ap (λ k. digits_value k s)
                      (let e : n / 10 * 10 + n % 10 ≡ n = omega arith in e))
          | no h ↦ ap (λ k. digits_value k s) (let e : 0 ≡ n = omega arith in e)
        ]

digit-is_digit : (n : ℕ) → is_digit (code (digit n)) ≡ true
unfolding digit
digit-is_digit n = ground arith

write_digits-starts_digit :
    (n : ℕ) (s : String) (w : Acc ◌<◌ n)
    → (0 < n) ⊎ (starts_digit s ≡ true)
    → starts_digit (write_digits n s w) ≡ true
unfolding write_digits
write_digits-starts_digit n s (Acc.intro _ smaller) k =
    elim (dec_lt 0 n)
      as (λ d.
        starts_digit (
          dite d
            (λ h. write_digits (n / 10) (String.◌∷◌ (digit n) s) (smaller (n / 10) (omega arith)))
            (λ _. s))
        ≡ true) [
          | yes h ↦
              write_digits-starts_digit (n / 10) (String.◌∷◌ (digit n) s)
                (smaller (n / 10) (omega arith)) (inr (digit-is_digit n))
          | no h ↦ elim k [ inl l ↦ absurd (h l) | inr e ↦ e ]
        ]

-- What Atoi reads in a text that intToStr wrote.
abbrev pub read_back : ℤ → Option ℤ
read_back (pos n) = some (pos n)
read_back (negsuc n) = none

-- A Go int's greatest value.
abbrev pub IsInt : ℤ → Type 0
IsInt (pos n) = n < 2 ^ 63
IsInt (negsuc n) = n < 2 ^ 63

in_range : (n : ℕ) → n < 2 ^ 63 → non_negative (digits_value n "") ≡ some (pos n)
unfolding digits_value
in_range n h = rw (lt→ltb n (2 ^ 63) h) refl

-- intToStr ends for every int of 64 bits, and strconv.Atoi reads in its text a non-negative int
-- itself, and nothing for a negative one.
pub atoi-int_to_str : (z : ℤ) → IsInt z → atoi (int_to_str z) ≡ read_back z
unfolding int_to_str
atoi-int_to_str (pos n) h = elim (Bool-cases (n == 0)) [
  | inl y ↦ let e : n ≡ 0 = ground arith in rw y (rw e (unfold atoi in refl))
  | inr k ↦ rw k (
      atoi-unsigned (write_digits n "" (smaller_ints n))
        (write_digits-starts_digit n "" (smaller_ints n) (inl (ground arith)))
      ∙ (ap non_negative (digits_value-write_digits n "" (smaller_ints n)) ∙ in_range n h))
]
atoi-int_to_str (negsuc n) h = unfold atoi in refl
