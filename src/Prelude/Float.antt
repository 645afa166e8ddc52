-- ===== src/Prelude/Float.antt =====
-- Go's float64: the nearest number with 53 significant bits, of two the even one. Numbers are in units
-- of some power of two, far from the least and the greatest float64.
use native.Mathlib.Nat.{pow-suc, mod-add-div', mod-lt, pow-le-pow_right}
use event_driven_notificatio.Prelude.{
  ◌==◌, ◌∙◌, sym, ℕ, zero, suc, ◌+◌, ◌-◌, ◌*◌, ◌/◌, ◌%◌, ◌^◌, ◌≤◌, ◌<◌, ◌≡◌, refl, ◌⊎◌, inl, inr,
  ltb, if◌then◌else◌, Bool-cases, arith,
}

-- The number of low bits that do not fit, with fuel for so many.
unfoldable pub excess_bits : ℕ → ℕ → ℕ
excess_bits zero v = 0
excess_bits (suc k) v = let rest = excess_bits k (v / 2) in if ltb v (2 ^ 53) then 0 else suc rest

-- v to the nearest multiple of unit
unfoldable pub nearest : ℕ → ℕ → ℕ
nearest unit v =
    let q = v / unit in
    let r = v % unit in
    if ltb (2 * r) unit
    then q * unit
    else if ltb unit (2 * r)
    then (q + 1) * unit
    else (q + q % 2) * unit

-- v as a float64
unfoldable pub round_float : ℕ → ℕ
unfolding excess_bits nearest
round_float v = nearest (2 ^ excess_bits 192 v) v

pow_two : (k : ℕ) → 2 ^ suc k ≡ 2 * 2 ^ k
pow_two k = pow-suc 2 k ∙ grind arith

excess_bits_lem :
    (k v : ℕ) → v < 2 ^ 53 * 2 ^ k → let e = excess_bits k v in (e ≡ 0) ⊎ (2 ^ 52 * 2 ^ e ≤ v)
unfolding excess_bits
excess_bits_lem zero v h = inl refl
excess_bits_lem (suc k) v h = elim (Bool-cases (ltb v (2 ^ 53))) [
  | inl y ↦ rw y (inl refl)
  | inr n ↦ rw n (elim (excess_bits_lem k (v / 2) (omega (arith, pow_two k))) [
    | inl e ↦ inr (rw e (ground arith))
    | inr l ↦ inr (omega (arith, pow_two (excess_bits k (v / 2))))
  ])
]

even_or_odd : (q : ℕ) → (q % 2 ≡ 0) ⊎ (q % 2 ≡ 1)
even_or_odd q = elim (Bool-cases (q % 2 == 0)) [
  | inl y ↦ inl (ground arith)
  | inr n ↦ inr (ground arith)
]

nearest_lem :
    (unit v : ℕ)
    → 0 < unit
    → (2 * nearest unit v ≤ 2 * v + unit) × (2 * v ≤ 2 * nearest unit v + unit)
unfolding nearest
nearest_lem unit v h =
    let q = v / unit in
    let parts : v ≡ v % unit + q * unit = sym (mod-add-div' v unit) in
    let small : v % unit < unit = mod-lt v h in
    let next : (q + 1) * unit ≡ q * unit + unit = grind arith in
    elim (Bool-cases (ltb (2 * (v % unit)) unit)) [
      | inl y ↦ rw y (ground arith)
      | inr n ↦ rw n (elim (Bool-cases (ltb unit (2 * (v % unit)))) [
        | inl y ↦ rw y (ground arith)
        | inr m ↦ rw m (elim (even_or_odd q) [
          | inl e ↦ rw e (let same : (q + 0) * unit ≡ q * unit = grind arith in ground arith)
          | inr e ↦ rw e (ground arith)
        ])
      ])
    ]

-- The error of a rounding to a unit that fits, in relation to the number.
nearest_bounds :
    (e v : ℕ)
    → (e ≡ 0) ⊎ (2 ^ 52 * 2 ^ e ≤ v)
    → (nearest (2 ^ e) v * 2 ^ 53 ≤ v * (2 ^ 53 + 1))
      × (v * (2 ^ 53 - 1) ≤ nearest (2 ^ e) v * 2 ^ 53)
nearest_bounds e v (inl z) =
    let near = nearest_lem 1 v (omega arith) in rw z (omega (arith, near.0), omega (arith, near.1))
nearest_bounds e v (inr l) =
    let near =
      nearest_lem (2 ^ e) v
        (pow-le-pow_right {n = 2} (omega arith) {i = 0} {j = e} (omega arith)) in
    (omega (arith, near.0), omega (arith, near.1))

pub round_float_bounds :
    (v : ℕ)
    → v < 2 ^ 245
    → (round_float v * 2 ^ 53 ≤ v * (2 ^ 53 + 1)) × (v * (2 ^ 53 - 1) ≤ round_float v * 2 ^ 53)
unfolding round_float
round_float_bounds v h = nearest_bounds (excess_bits 192 v) v (excess_bits_lem 192 v (omega arith))
