-- ===== src/Split/Pieces.antt =====
-- The pieces that the split iterator visits.
use image_proxy.Base.{
  ℕ, zero, suc, ◌+◌, ◌-◌, ◌<◌, ◌≡◌, refl, sym, ap, ap₂, ◌∙◌, ◌⊎◌, inl, inr, true, false, Option,
  none, some, List, [], ◌∷◌, ◌++◌, map, append-nil, append_assoc, arith, ◌==◌, if◌then◌else◌, ==→eq,
  Bool-cases, length, take, drop, length-append, Bytes,
}
use image_proxy.Split.{Piece, scan, begin_split, advance, current, at_end, as_string, visit}

put_front : ℕ → List Bytes → List Bytes
put_front y [] = []
put_front y (p ∷ ps) = (y ∷ p) ∷ ps

-- The pieces of a text between the places of a character.
unfoldable pub split_on : ℕ → Bytes → List Bytes
unfolding put_front
split_on c [] = [] ∷ []
split_on c (x ∷ xs) = if x == c then [] ∷ split_on c xs else put_front x (split_on c xs)

-- The text in front of the character, and the text behind it.
abbrev pub Parted : ℕ → Bytes → Type 0
Parted c rest =
    (pre : Bytes) × (post : Bytes) × (rest ≡ pre ++ (c ∷ post))
    × (scan c rest ≡ length pre)
    × (split_on c rest ≡ pre ∷ split_on c post)

pub scan-cases :
    (c : ℕ) (rest : Bytes)
    → ((scan c rest ≡ length rest) × (split_on c rest ≡ rest ∷ [])) ⊎ Parted c rest
unfolding scan split_on put_front
scan-cases c [] = inl (refl, refl)
scan-cases c (x ∷ xs) = elim (Bool-cases (x == c)) [
  | inl e ↦
      let same : x ≡ c = ==→eq x c e in inr ([], xs, ap (λ y. y ∷ xs) same, rw e refl, rw e refl)
  | inr e ↦ elim (scan-cases c xs) [
    | inl (n, s) ↦ inl (rw (e, n) (omega arith), rw (e, s) refl)
    | inr (pre, post, t, n, s) ↦
        inr (x ∷ pre, post, ap (◌∷◌ x) t, rw (e, n) (omega arith), rw (e, s) refl)
  ]
]

drop-length : (done rest : Bytes) → drop (length done) (done ++ rest) ≡ rest
drop-length [] rest = refl
drop-length (d ∷ done) rest = drop-length done rest

take-length : (pre post : Bytes) → take (length pre) (pre ++ post) ≡ pre
take-length [] post = refl
take-length (d ∷ pre) post = ap (◌∷◌ d) (take-length pre post)

-- What `operator*` gives of a text.
pub current-text :
    (text done pre post : Bytes) (head tail : ℕ)
    → text ≡ done ++ (pre ++ post)
    → head ≡ length done
    → tail ≡ length done + length pre
    → as_string text (current (some (head, tail))) ≡ some pre
unfolding as_string current
current-text text done [] post head tail t h e =
    let same : (tail == head) ≡ true = ground arith in
    let none_in : (tail - head == 0) ≡ true = ground arith in rw (same, none_in) refl
current-text text done (x ∷ pre) post head tail t h e =
    let differ : (tail == head) ≡ false = ground arith in
    let size : tail - head ≡ length (x ∷ pre) = omega arith in
    rw (differ, size, h, t, drop-length done ((x ∷ pre) ++ post))
      (ap some (take-length (x ∷ pre) post))

abbrev pub texts : Bytes → List Piece → List (Option Bytes)
texts text ps = map (as_string text) ps

visit-more :
    (text : Bytes) (c fuel : ℕ) (p : ℕ × ℕ) (ps : List Piece)
    → visit text c fuel (advance text c (some p)) ≡ some ps
    → visit text c (suc fuel) (some p) ≡ some (current (some p) ∷ ps)
unfolding visit at_end
visit-more text c fuel p ps e = rw e refl

visit-end : (text : Bytes) (c fuel : ℕ) → visit text c fuel none ≡ some []
unfolding visit at_end
visit-end text c zero = refl
visit-end text c (suc fuel) = refl

pub regroup :
    (done pre post : Bytes) (c : ℕ)
    → (done ++ (pre ++ (c ∷ []))) ++ post ≡ done ++ (pre ++ (c ∷ post))
regroup done pre post c =
    append_assoc done (pre ++ (c ∷ [])) post ∙ ap (λ l. done ++ l) (append_assoc pre (c ∷ []) post)

pub length-regroup :
    (done pre : Bytes) (c : ℕ) → length (done ++ (pre ++ (c ∷ []))) ≡ length done + length pre + 1
length-regroup done pre c =
    omega (arith, length-append done (pre ++ (c ∷ [])), length-append pre (c ∷ []))

-- `operator++` goes behind the character.
pub advance-next :
    (text done pre post : Bytes) (c head tail : ℕ)
    → text ≡ done ++ (pre ++ (c ∷ post))
    → tail ≡ length done + length pre
    → advance text c (some (head, tail)) ≡ some (tail + 1, tail + 1 + scan c post)
unfolding advance
advance-next text done pre post c head tail t e =
    let l : length text ≡ length done + length pre + 1 + length post =
      ap length (t ∙ sym (regroup done pre post c))
      ∙ omega (arith, length-append (done ++ (pre ++ (c ∷ []))) post, length-regroup done pre c) in
    let inside : (tail == length text) ≡ false = ground arith in
    let n : tail + 1 ≡ length (done ++ (pre ++ (c ∷ []))) =
      omega (arith, length-regroup done pre c) in
    let behind : drop (tail + 1) text ≡ post =
      ap₂ (λ k l. drop k l) n (t ∙ sym (regroup done pre post c))
      ∙ drop-length (done ++ (pre ++ (c ∷ []))) post in
    rw (inside, behind) refl

visit_from :
    (text : Bytes) (c fuel : ℕ) (done rest : Bytes) (head tail : ℕ)
    → text ≡ done ++ rest
    → head ≡ length done
    → tail ≡ length done + scan c rest
    → length rest < fuel
    → (ps : List Piece) × (visit text c fuel (some (head, tail)) ≡ some ps)
      × (texts text ps ≡ map some (split_on c rest))
unfolding advance
visit_from text c zero done rest head tail t h e f = absurd (omega arith)
visit_from text c (suc fuel) done rest head tail t h e f = elim (scan-cases c rest) [
  | inl (n, s) ↦
      let l : length text ≡ length done + length rest = ap length t ∙ length-append done rest in
      let at_last : (tail == length text) ≡ true = ground arith in
      let stop : advance text c (some (head, tail)) ≡ none = rw at_last refl in
      let here : as_string text (current (some (head, tail))) ≡ some rest =
        current-text text done rest [] head tail (t ∙ ap (λ l. done ++ l) (sym (append-nil rest))) h
          (omega arith) in
      (
        current (some (head, tail)) ∷ [],
        visit-more text c fuel (head, tail) []
            (ap (visit text c fuel) stop ∙ visit-end text c fuel),
        rw (here, s) refl,
      )
  | inr (pre, post, r, n, s) ↦
      let t' : text ≡ done ++ (pre ++ (c ∷ post)) = t ∙ ap (λ l. done ++ l) r in
      let next : advance text c (some (head, tail)) ≡ some (tail + 1, tail + 1 + scan c post) =
        advance-next text done pre post c head tail t' (omega arith) in
      let shorter : length post < fuel = omega (arith, ap length r, length-append pre (c ∷ post)) in
      let n' : tail + 1 ≡ length (done ++ (pre ++ (c ∷ []))) =
        omega (arith, length-regroup done pre c) in
      let (ps, v, w) =
        visit_from text c fuel (done ++ (pre ++ (c ∷ []))) post (tail + 1) (tail + 1 + scan c post)
          (t' ∙ sym (regroup done pre post c)) n' (omega arith) shorter in
      let here : as_string text (current (some (head, tail))) ≡ some pre =
        current-text text done pre (c ∷ post) head tail t' h (omega arith) in
      (
        current (some (head, tail)) ∷ ps,
        visit-more text c fuel (head, tail) ps (ap (visit text c fuel) next ∙ v),
        rw (here, s, w) refl,
      )
]

-- The loop over the split iterator ends within one round more than the text has characters, and on
-- a text with a character at least it visits exactly the texts between the places of the split
-- character, the empty ones too, and never reads through a null pointer.
pub visit-split_on :
    (c : ℕ) (x : ℕ) (xs : Bytes)
    → (ps : List Piece) × (visit (x ∷ xs) c (length (x ∷ xs) + 1) (begin_split (x ∷ xs) c)
        ≡ some ps)
      × (texts (x ∷ xs) ps ≡ map some (split_on c (x ∷ xs)))
unfolding begin_split
visit-split_on c x xs = rw (nonempty) (
    visit_from (x ∷ xs) c (length (x ∷ xs) + 1) [] (x ∷ xs) 0 (scan c (x ∷ xs)) refl refl
      (omega arith) (omega arith))
  where
    nonempty : (length (x ∷ xs) == 0) ≡ false
    nonempty = ground arith
