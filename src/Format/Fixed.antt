-- ===== src/Format/Fixed.antt =====
-- A number printed to a fixed width, read back.
use image_proxy.Base.{
  ℕ, ◌+◌, ◌-◌, ◌*◌, ◌/◌, ◌≤◌, ◌≡◌, refl, sym, ◌∙◌, inl, inr, [], ◌∷◌, arith, ltb, ◌==◌,
  if◌then◌else◌, Bool-cases, length, Bytes,
}
use native.Mathlib.Nat.{div-eq_of_lt}

-- What a digit stands for, and the digits of a text read behind a number.
unfoldable pub digit_value : ℕ → ℕ
digit_value c = if ltb c 58 then c - 48 else c - 55

unfoldable pub value : ℕ → Bytes → ℕ → ℕ
value base [] n = n
value base (c ∷ cs) n = value base cs (n * base + digit_value c)

-- What is left to print behind a place.
next_place : (base v : ℕ) → 2 ≤ base → (if v == 0 then v else v / base) ≡ v / base
next_place base v h = elim (Bool-cases (v == 0)) [
  | inl nothing ↦
      let z : v ≡ 0 = ground arith in rw nothing (z ∙ sym (div-eq_of_lt (omega (arith, z, h))))
  | inr left ↦ rw left refl
]

-- What a number printed with zeros in front owes its reader: as many characters as the width, which have
-- the number's value to the base.
pub record Printed (base width v : ℕ) (text : Bytes) : Type 0 where
  pub wide : length text ≡ width
  pub reads : value base text 0 ≡ v
