-- ===== src/Split/Pairs.antt =====
-- A name and a value around the first place of a character.
use image_proxy.Base.{
  ℕ, suc, ◌+◌, ◌-◌, ◌≡◌, refl, sym, ap, ◌∙◌, inl, inr, Bool, true, false, none, some, [], ◌∷◌, ◌++◌,
  arith, ◌==◌, if◌then◌else◌, Bool-cases, length, take, drop, length-append, take-all,
  drop-append_add, Bytes,
}
use image_proxy.Split.{split_pair, scan, as_string, current, begin_split, advance, at_end}
use image_proxy.Split.Pieces.{current-text, advance-next}

scan-first :
    (c : ℕ) (first rest : Bytes)
    → scan c first ≡ length first
    → scan c (first ++ (c ∷ rest)) ≡ length first
unfolding scan
scan-first c [] rest n = let same : (c == c) ≡ true = ground arith in rw same refl
scan-first c (x ∷ first) rest n = elim (Bool-cases (x == c)) [
  | inl e ↦ absurd (impossible (differ_not e ∙ n))
  | inr e ↦ rw e (omega (arith, scan-first c first rest (omega (arith, sym (differ e) ∙ n))))
]
  where
    impossible : 0 ≡ suc (length first) → ⊥
    impossible h = omega arith

    differ_not : (x == c) ≡ true → 0 ≡ scan c (x ∷ first)
    differ_not e = rw e refl

    differ : (x == c) ≡ false → scan c (x ∷ first) ≡ 1 + scan c first
    differ e = rw e refl

-- Whether a text begins with the character.
unfoldable pub starts_with : ℕ → Bytes → Bool
starts_with c [] = false
starts_with c (x ∷ xs) = x == c

-- The second piece, whose end the iterator found behind the rest's own first place.
value_text :
    (text first rest : Bytes) (c head : ℕ)
    → text ≡ first ++ (c ∷ rest)
    → head ≡ length first + 1
    → as_string text (record {
      start = if head + scan c rest == head then none else some head;
      size = length rest;
    })
      ≡ (if starts_with c rest then none else some rest)
unfolding as_string starts_with scan
value_text text first [] c head t h =
    let same : (head + 0 == head) ≡ true = ground arith in rw same refl
value_text text first (x ∷ xs) c head t h = elim (Bool-cases (x == c)) [
  | inl e ↦
      let same : (head + 0 == head) ≡ true = ground arith in
      let sized : (suc (length xs) == 0) ≡ false = ground arith in rw (e, same, sized) refl
  | inr e ↦
      let differ : (head + (1 + scan c xs) == head) ≡ false = ground arith in
      let behind : drop (length first + 1) (first ++ (c ∷ x ∷ xs)) ≡ x ∷ xs =
        drop-append_add (length first + 1) 1 first (c ∷ x ∷ xs) refl in
      let whole : take (length (x ∷ xs)) (x ∷ xs) ≡ x ∷ xs =
        take-all (length (x ∷ xs)) (x ∷ xs) (omega arith) in
      rw (e, differ, h, t, behind) (ap some whole)
]

begin_first :
    (c : ℕ) (first rest : Bytes)
    → scan c first ≡ length first
    → begin_split (first ++ (c ∷ rest)) c ≡ some (0, length first)
unfolding begin_split
begin_first c first rest n =
    let nonempty : (length (first ++ (c ∷ rest)) == 0) ≡ false =
      ground (arith, length-append first (c ∷ rest)) in
    rw (nonempty, scan-first c first rest n) refl

-- In a text with the character, `SplitPair` gives the text in front of its first place, and a second
-- piece of the size of the rest. The second piece reads as the rest, unless the rest begins with the
-- character again: then it is a null pointer with a size above 0.
pub split_pair_lem :
    (c : ℕ) (first rest : Bytes)
    → scan c first ≡ length first
    → let text = first ++ (c ∷ rest) in
      let (name, value) = split_pair text c in
      (as_string text name ≡ some first)
      × (value.size ≡ length rest)
      × (as_string text value ≡ (if starts_with c rest then none else some rest))
unfolding split_pair at_end current
split_pair_lem c first rest n =
    let text : Bytes = first ++ (c ∷ rest) in
    let begin : begin_split text c ≡ some (0, length first) = begin_first c first rest n in
    let next : advance text c (some (0, length first))
        ≡ some (length first + 1, length first + 1 + scan c rest) =
      advance-next text [] first rest c 0 (length first) refl (omega arith) in
    let size : length text - (length first - 0) - 1 ≡ length rest =
      omega (arith, length-append first (c ∷ rest)) in
    rw (begin, next, size)
      (
        current-text text [] first (c ∷ rest) 0 (length first) refl refl (omega arith),
        refl,
        value_text text first rest c (length first + 1) refl refl,
      )
