-- ===== src/Csv/Lines/Texts.antt =====
-- The rows of a text.
use image_proxy.Base.{
  ℕ, zero, suc, ◌%◌, ◌<◌, ◌≡◌, refl, ap, subst, inl, inr, false, Option, none, some, List, [], ◌∷◌,
  ◌++◌, arith, ◌==◌, ==→eq, Bool-cases, Option-cases, length, length-append, Bytes,
}
use image_proxy.Csv.{quote}
use image_proxy.Csv.Lines.{newline, without_return, put_front}
use image_proxy.Csv.Lines.Ends.{line_end}

-- The first row of a text and what is behind it; the last row of a text may have no newline.
unfoldable pub first_row : Bytes → Option (Bytes × Bytes)
first_row [] = none
first_row (x ∷ s) = elim (line_end 0 (x ∷ s)).1 [
  | none ↦ some (x ∷ s, [])
  | some (a, b) ↦ some (without_return a, b)
]

-- The rows of a text, on fuel.
unfoldable pub rows : ℕ → Bytes → List Bytes
rows zero text = []
rows (suc fuel) text = elim (first_row text) [ none ↦ [] | some (row, rest) ↦ row ∷ rows fuel rest ]

-- The text around the end of a line.
unfoldable pub Parts : Bytes → Option (Bytes × Bytes) → Type 0
Parts s none = Unit
Parts s (some (a, b)) = s ≡ a ++ (newline ∷ b)

put_front-Parts :
    (x : ℕ) (s : Bytes) (r : ℕ × Option (Bytes × Bytes))
    → Parts s r.1
    → Parts (x ∷ s) (put_front (x ∷ []) r).1
unfolding put_front Parts
put_front-Parts x s (q, none) h = tt
put_front-Parts x s (q, some (a, b)) h = ap (◌∷◌ x) h

pub line_end-Parts : (q : ℕ) (s : Bytes) → Parts s (line_end q s).1
unfolding line_end Parts
line_end-Parts q [] = tt
line_end-Parts q (x ∷ s) = elim (Bool-cases (x == newline)) [
  | inl eol ↦ elim (Bool-cases (q % 2 == 0)) [
    | inl even ↦ rw (eol, even) (ap (λ c. c ∷ s) (==→eq x newline eol))
    | inr odd ↦ rw (eol, odd) (put_front-Parts x s (line_end q s) (line_end-Parts q s))
  ]
  | inr other ↦ elim (Bool-cases (x == quote)) [
    | inl quoted ↦
        rw (other, quoted) (put_front-Parts x s (line_end (suc q) s) (line_end-Parts (suc q) s))
    | inr plain ↦ rw (other, plain) (put_front-Parts x s (line_end q s) (line_end-Parts q s))
  ]
]

pub first_row_ended :
    (text a b : Bytes)
    → (line_end 0 text).1 ≡ some (a, b)
    → first_row text ≡ some (without_return a, b)
unfolding first_row line_end
first_row_ended [] a b e = absurd (cc e)
first_row_ended (x ∷ s) a b e =
    ap
      (λ (r : Option (Bytes × Bytes)). elim r as (λ _. Option (Bytes × Bytes)) [
        | none ↦ some (x ∷ s, [])
        | some (c, d) ↦ some (without_return c, d)
      ])
      e

pub first_row_unended :
    (text : Bytes)
    → (line_end 0 text).1 ≡ none
    → (length text == 0) ≡ false
    → first_row text ≡ some (text, [])
unfolding first_row
first_row_unended [] e h = absurd (ground (arith, h))
first_row_unended (x ∷ s) e h =
    ap
      (λ (r : Option (Bytes × Bytes)). elim r as (λ _. Option (Bytes × Bytes)) [
        | none ↦ some (x ∷ s, [])
        | some (c, d) ↦ some (without_return c, d)
      ])
      e

-- The rest of a text is shorter by the newline.
pub shorter : (text a b : Bytes) → (line_end 0 text).1 ≡ some (a, b) → length b < length text
unfolding Parts
shorter text a b e =
    let parts : text ≡ a ++ (newline ∷ b) = subst (Parts text) e (line_end-Parts 0 text) in
    omega (arith, ap length parts, length-append a (newline ∷ b))

first_row-shorter :
    (text row rest : Bytes) → first_row text ≡ some (row, rest) → length rest < length text
unfolding first_row
first_row-shorter [] row rest z = absurd (cc z)
first_row-shorter (x ∷ s) row rest z = elim (Option-cases (line_end 0 (x ∷ s)).1) [
  | inl e ↦
      let gone : rest ≡ [] = cc (first_row_unended (x ∷ s) e (ground arith), z) in
      omega (arith, ap length gone)
  | inr ((a, b), e) ↦
      let same : b ≡ rest = cc (first_row_ended (x ∷ s) a b e, z) in
      omega (arith, ap length same, shorter (x ∷ s) a b e)
]

-- Fuel for each character is enough for all rows of a text.
pub rows_enough :
    (f g : ℕ) (text : Bytes) → length text < f → length text < g → rows f text ≡ rows g text
unfolding rows
rows_enough zero g text p q = absurd (omega (arith, p))
rows_enough (suc f) zero text p q = absurd (omega (arith, q))
rows_enough (suc f) (suc g) text p q = elim (Option-cases (first_row text)) [
  | inl z ↦ rw (rows, z) refl
  | inr ((row, rest), z) ↦
      let l = first_row-shorter text row rest z in
      rw (rows, z) (ap (◌∷◌ row) (rows_enough f g rest (omega (arith, l, p)) (omega (arith, l, q))))
]

-- All rows of a text.
unfoldable pub all_rows : Bytes → List Bytes
all_rows text = rows (suc (length text)) text
