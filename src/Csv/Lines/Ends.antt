-- ===== src/Csv/Lines/Ends.antt =====
-- The end of a line, found one character at a time.
use image_proxy.Base.{
  ℕ, zero, suc, ◌+◌, ◌%◌, ◌≤◌, ◌≡◌, refl, sym, ap, ◌∙◌, inl, inr, true, false, Option, none, some,
  [], ◌∷◌, ◌++◌, append_assoc, arith, ◌==◌, if◌then◌else◌, ==→eq, Bool-cases, Option-cases, length,
  Bytes,
}
use image_proxy.Csv.{cut, count_char, quote}
use image_proxy.Csv.Lines.{newline, find_eol, put_front}

-- The quotes up to the end of the first line, and the texts around it: a newline behind as many quotes as make
-- pairs.
unfoldable pub line_end : ℕ → Bytes → ℕ × Option (Bytes × Bytes)
line_end quotes [] = (quotes, none)
line_end quotes (x ∷ s) =
    let other = put_front (x ∷ []) (line_end quotes s) in
    let quoted = put_front (x ∷ []) (line_end (suc quotes) s) in
    if x == newline
    then if quotes % 2 == 0 then (quotes, some ([], s)) else other
    else if x == quote
    then quoted
    else other

put_front-put_front :
    (a b : Bytes) (r : ℕ × Option (Bytes × Bytes))
    → put_front a (put_front b r) ≡ put_front (a ++ b) r
unfolding put_front
put_front-put_front a b (q, none) = refl
put_front-put_front a b (q, some (x, y)) = ap (λ t. (q, some (t, y))) (sym (append_assoc a b x))

-- What `find_eol` does with the text that `memchr` has cut.
find_cut : ℕ → ℕ → Bytes → Option (Bytes × Bytes) → ℕ × Option (Bytes × Bytes)
find_cut fuel quotes s none = (quotes + count_char quote s, none)
find_cut fuel quotes s (some (a, b)) =
    let quotes1 = quotes + count_char quote a in
    if quotes1 % 2 == 0
    then (quotes1, some (a, b))
    else put_front (a ++ (newline ∷ [])) (find_eol fuel quotes1 b)

find_eol-cut :
    (fuel quotes : ℕ) (s : Bytes)
    → find_eol (suc fuel) quotes s ≡ find_cut fuel quotes s (cut newline s)
unfolding find_eol find_cut cut count_char
find_eol-cut fuel quotes [] = ap (λ n. (n, none)) (omega arith)
find_eol-cut fuel quotes (x ∷ s) = elim (Option-cases (cut newline (x ∷ s))) [
  | inl e ↦ rw (find_eol, e) refl
  | inr (_, e) ↦ rw (find_eol, e) refl
]

-- A character that ends no line.
find_cut-cons :
    (fuel quotes quotes1 x : ℕ) (s : Bytes) (r : Option (Bytes × Bytes))
    → ((a : Bytes) → quotes + count_char quote (x ∷ a) ≡ quotes1 + count_char quote a)
    → find_cut fuel quotes (x ∷ s) (elim r [ none ↦ none | some (a, b) ↦ some (x ∷ a, b) ])
      ≡ put_front (x ∷ []) (find_cut fuel quotes1 s r)
unfolding find_cut put_front
find_cut-cons fuel quotes quotes1 x s none e = ap (λ n. (n, none)) (e s)
find_cut-cons fuel quotes quotes1 x s (some (a, b)) e =
    let n = quotes1 + count_char quote a in
    rw (e a) (elim (Bool-cases (n % 2 == 0)) [
      | inl even ↦ rw even refl
      | inr odd ↦
          rw odd (sym (put_front-put_front (x ∷ []) (a ++ (newline ∷ [])) (find_eol fuel n b)))
    ])

find_cut-eol :
    (fuel quotes x : ℕ) (s : Bytes)
    → x ≡ newline
    → find_cut fuel quotes (x ∷ s) (some ([], s)) ≡ (
        if quotes % 2 == 0
        then (quotes, some ([], s))
        else put_front (x ∷ []) (find_eol fuel quotes s))
unfolding find_cut count_char
find_cut-eol fuel quotes x s e = let same : quotes + 0 ≡ quotes = omega arith in rw (same, e) refl

pub cut_here : (c x : ℕ) (s : Bytes) → (x == c) ≡ true → cut c (x ∷ s) ≡ some ([], s)
unfolding cut
cut_here c x s e = rw e refl

pub cut_other :
    (c x : ℕ) (s : Bytes)
    → (x == c) ≡ false
    → cut c (x ∷ s) ≡ elim (cut c s) [ none ↦ none | some (a, b) ↦ some (x ∷ a, b) ]
unfolding cut
cut_other c x s e = rw e refl

pub count_here :
    (n x : ℕ) (a : Bytes)
    → (x == quote) ≡ true
    → n + count_char quote (x ∷ a) ≡ suc n + count_char quote a
unfolding count_char
count_here n x a e = rw (count_char, e) (omega arith)

pub count_other :
    (n x : ℕ) (a : Bytes)
    → (x == quote) ≡ false
    → n + count_char quote (x ∷ a) ≡ n + count_char quote a
unfolding count_char
count_other n x a e = rw (count_char, e) refl

-- With fuel for each character, `Find` gives the end of the first line.
pub find_eol-line_end :
    (fuel quotes : ℕ) (s : Bytes) → length s ≤ fuel → find_eol fuel quotes s ≡ line_end quotes s
unfolding find_eol line_end
find_eol-line_end fuel quotes [] h = refl
find_eol-line_end zero quotes (x ∷ s) h = absurd (omega arith)
find_eol-line_end (suc fuel) quotes (x ∷ s) h = elim (Bool-cases (x == newline)) [
  | inl eol ↦
      let ih = find_eol-line_end fuel quotes s (omega (arith, h)) in
      find_eol-cut fuel quotes (x ∷ s)
      ∙ ap (find_cut fuel quotes (x ∷ s)) (cut_here newline x s eol)
      ∙ rw eol (
          find_cut-eol fuel quotes x s (==→eq x newline eol)
          ∙ ap (λ r. if quotes % 2 == 0 then (quotes, some ([], s)) else put_front (x ∷ []) r) ih)
  | inr other ↦
      let step : (q : ℕ)
          → ((a : Bytes) → quotes + count_char quote (x ∷ a) ≡ q + count_char quote a)
          → find_eol (suc fuel) quotes (x ∷ s) ≡ put_front (x ∷ []) (line_end q s) =
        λ q e.
          find_eol-cut fuel quotes (x ∷ s)
          ∙ ap (find_cut fuel quotes (x ∷ s)) (cut_other newline x s other)
          ∙ find_cut-cons fuel quotes q x s (cut newline s) e
          ∙ ap (put_front (x ∷ []))
              (sym (find_eol-cut fuel q s) ∙ find_eol-line_end (suc fuel) q s (omega (arith, h))) in
      elim (Bool-cases (x == quote)) [
        | inl quoted ↦
            rw (line_end, other, quoted) (step (suc quotes) (λ a. count_here quotes x a quoted))
        | inr plain ↦ rw (line_end, other, plain) (step quotes (λ a. count_other quotes x a plain))
      ]
]

-- The end of a line in a text of two parts.
unfoldable pub continue_line :
    Bytes → Bytes → ℕ × Option (Bytes × Bytes) → ℕ × Option (Bytes × Bytes)
continue_line a b (quotes, none) = put_front a (line_end quotes b)
continue_line a b (quotes, some (x, y)) = (quotes, some (x, y ++ b))

continue_line-put_front :
    (x : ℕ) (a b : Bytes) (r : ℕ × Option (Bytes × Bytes))
    → put_front (x ∷ []) (continue_line a b r) ≡ continue_line (x ∷ a) b (put_front (x ∷ []) r)
unfolding continue_line put_front
continue_line-put_front x a b (q, none) = put_front-put_front (x ∷ []) a (line_end q b)
continue_line-put_front x a b (q, some (y, z)) = refl

put_front-nil : (r : ℕ × Option (Bytes × Bytes)) → put_front [] r ≡ r
unfolding put_front
put_front-nil (q, none) = refl
put_front-nil (q, some (x, y)) = refl

pub line_end-append :
    (quotes : ℕ) (a b : Bytes) → line_end quotes (a ++ b) ≡ continue_line a b (line_end quotes a)
unfolding line_end continue_line
line_end-append quotes [] b = sym (put_front-nil (line_end quotes b))
line_end-append quotes (x ∷ a) b =
    let step : (q : ℕ)
        → put_front (x ∷ []) (line_end q (a ++ b))
          ≡ continue_line (x ∷ a) b (put_front (x ∷ []) (line_end q a)) =
      λ q.
        ap (put_front (x ∷ [])) (line_end-append q a b)
        ∙ continue_line-put_front x a b (line_end q a) in
    elim (Bool-cases (x == newline)) [
      | inl eol ↦ elim (Bool-cases (quotes % 2 == 0)) [
        | inl even ↦ rw (line_end, eol, even) refl
        | inr odd ↦ rw (line_end, eol, odd) (step quotes)
      ]
      | inr other ↦ elim (Bool-cases (x == quote)) [
        | inl quoted ↦ rw (line_end, other, quoted) (step (suc quotes))
        | inr plain ↦ rw (line_end, other, plain) (step quotes)
      ]
    ]
