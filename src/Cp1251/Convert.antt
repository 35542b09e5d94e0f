-- ===== src/Cp1251/Convert.antt =====
-- Text to UTF-16 and back.
use image_proxy.Base.{
  ℕ, ◌<◌, ◌≡◌, refl, ap, ap₂, ◌∙◌, inl, inr, Bool, true, false, ◌||◌, Option, none, some, [], ◌∷◌,
  map, arith, ◌==◌, if◌then◌else◌, ==→eq, Bool-cases, length, All, holds_below, holds_below_at,
  Bytes,
}
use image_proxy.Cp1251.{
  cp1251_utf16, utf16_cp1251, utf16_cp1251_low, utf16_cp1251_high, convert_utf16_cp1251,
  convert_cp1251_utf16, try_convert_utf16_cp1251,
}

-- The two bytes that do not come back.
abbrev pub is_lost : ℕ → Bool
is_lost c = (c == 0) || (c == 0x7F)

back_table :
    holds_below (λ c. utf16_cp1251 (cp1251_utf16 c) == (if is_lost c then 0 else c)) 256 ≡ true
unfolding holds_below utf16_cp1251 cp1251_utf16 utf16_cp1251_low utf16_cp1251_high
back_table = refl

-- Each byte but 0 and 0x7F comes back from UTF-16; these two become 0, the sign for an error.
pub utf16_cp1251-cp1251_utf16 :
    (c : ℕ) → c < 256 → utf16_cp1251 (cp1251_utf16 c) ≡ (if is_lost c then 0 else c)
utf16_cp1251-cp1251_utf16 c h = ==→eq _ _ (
    holds_below_at (λ c. utf16_cp1251 (cp1251_utf16 c) == (if is_lost c then 0 else c)) 256 c h
      back_table)

-- What becomes of a byte.
abbrev pub kept : ℕ → ℕ
kept c = if is_lost c then 63 else c

abbrev pub AllBytes : Bytes → Type 0
AllBytes = All (λ (c : ℕ). c < 256)

kept-lem :
    (c : ℕ)
    → c < 256
    → (if utf16_cp1251 (cp1251_utf16 c) == 0 then 63 else utf16_cp1251 (cp1251_utf16 c)) ≡ kept c
kept-lem c h = rw (utf16_cp1251-cp1251_utf16 c h) (ground arith)

-- A text that is converted to UTF-16 and back is the same text, but for each 0 and each 0x7F, which
-- becomes a question mark.
pub convert-back :
    (cs : Bytes)
    → AllBytes cs
    → convert_utf16_cp1251 (convert_cp1251_utf16 cs (length cs)) (length cs) ≡ map kept cs
unfolding convert_utf16_cp1251 convert_cp1251_utf16
convert-back [] h = refl
convert-back (c ∷ cs) h = ap₂ (◌∷◌) (kept-lem c h.0) (convert-back cs h.1)

lost_none : (c : ℕ) → is_lost c ≡ true → (if is_lost c then 0 else c) == 0 ≡ true
lost_none c h = rw h refl

kept_some : (c : ℕ) → is_lost c ≡ false → ((if is_lost c then 0 else c) == 0) ≡ false
kept_some c h = rw h (ground arith)

abbrev pub any_lost : Bytes → Bool
any_lost [] = false
any_lost (c ∷ cs) = is_lost c || any_lost cs

-- `TryConvertUTF16_CP1251` on a text that was converted to UTF-16 gives the text back, or fails when
-- the text has a 0 or a 0x7F.
pub try_convert-back :
    (cs : Bytes)
    → AllBytes cs
    → try_convert_utf16_cp1251 (convert_cp1251_utf16 cs (length cs))
      ≡ (if any_lost cs then none else some cs)
unfolding try_convert_utf16_cp1251 convert_cp1251_utf16
try_convert-back [] h = refl
try_convert-back (c ∷ cs) h = elim (Bool-cases (is_lost c)) [
  | inl e ↦ rw (utf16_cp1251-cp1251_utf16 c h.0, lost_none c e, e) refl
  | inr e ↦
      rw (utf16_cp1251-cp1251_utf16 c h.0, kept_some c e, e, try_convert-back cs h.1)
        (pushed (any_lost cs) (utf16_cp1251 (cp1251_utf16 c))
          (utf16_cp1251-cp1251_utf16 c h.0 ∙ same e))
]
  where
    same : is_lost c ≡ false → (if is_lost c then 0 else c) ≡ c
    same e = rw e refl

    pushed :
        (b : Bool) (u : ℕ)
        → u ≡ c
        → (elim (if b then none else some cs) as (λ o. Option Bytes) [
          | none ↦ none
          | some bs ↦ some (u ∷ bs)
        ])
          ≡ (if b then none else some (c ∷ cs))
    pushed true u e = refl
    pushed false u e = ap (λ x. some (x ∷ cs)) e
