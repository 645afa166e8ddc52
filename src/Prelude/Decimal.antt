-- ===== src/Prelude/Decimal.antt =====
-- Decimal texts: strconv.Atoi, and the characters of the digits.
use Prim.Native.Char.{Char, char, code, IsScalar}
use Prim.Native.String.{String}
use Prim.Native.Nat.{ℕ, zero, suc, ◌+◌, ◌-◌, ◌*◌, ◌^◌, ◌%◌, ◌<◌, compare, Ordering}
use mathlib.Core.Path.{◌≡◌, refl}
use mathlib.Core.Bool.{Bool, true, false, ◌&&◌}
use mathlib.Core.Option.{Option, none, some}
use native.Mathlib.Omega.{arith}
use event_driven_notificatio.Prelude.Tests.{ltb, leb, ◌==◌, if◌then◌else◌}
use event_driven_notificatio.Prelude.Int.{ℤ, pos, negsuc}

abbrev pub is_digit : ℕ → Bool
is_digit c = leb b'0' c && leb c b'9'

IsScalar_of_lt : (n : ℕ) → n < 55296 → IsScalar n
IsScalar_of_lt n h = let e : compare n 55296 ≡ Ordering.lt = ground arith in rw e tt

-- rune('0' + n%10)
unfoldable pub digit : ℕ → Char
unfolding IsScalar_of_lt
digit n = char (b'0' + n % 10) (IsScalar_of_lt (b'0' + n % 10) (omega arith))

-- The value of the digits, behind those that make `acc`.
unfoldable pub digits_value : ℕ → String → Option ℕ
digits_value acc String.[] = some acc
digits_value acc (String.◌∷◌ c s) =
    let rest = digits_value (acc * 10 + (code c - b'0')) s in
    if is_digit (code c) then rest else none

abbrev pub non_negative : Option ℕ → Option ℤ
non_negative none = none
non_negative (some n) = if ltb n (2 ^ 63) then some (pos n) else none

abbrev pub negated : ℕ → Option ℤ
negated zero = some (pos 0)
negated (suc n) = if ltb n (2 ^ 63) then some (negsuc n) else none

abbrev pub negative : Option ℕ → Option ℤ
negative none = none
negative (some n) = negated n

abbrev pub unsigned : String → Option ℕ
unsigned String.[] = none
unsigned (String.◌∷◌ c s) = digits_value 0 (String.◌∷◌ c s)

-- strconv.Atoi, of an int of 64 bits: none is its error.
unfoldable pub atoi : String → Option ℤ
unfolding digits_value
atoi String.[] = none
atoi (String.◌∷◌ c s) =
    if code c == b'+'
    then non_negative (unsigned s)
    else if code c == b'-'
    then negative (unsigned s)
    else non_negative (digits_value 0 (String.◌∷◌ c s))

abbrev pub starts_digit : String → Bool
starts_digit String.[] = false
starts_digit (String.◌∷◌ c s) = is_digit (code c)

pub atoi-unsigned : (s : String) → starts_digit s ≡ true → atoi s ≡ non_negative (digits_value 0 s)
unfolding atoi
atoi-unsigned String.[] h = cc
atoi-unsigned (String.◌∷◌ c s) h =
    let p : (code c == b'+') ≡ false = ground arith in
    let m : (code c == b'-') ≡ false = ground arith in rw p (rw m refl)
