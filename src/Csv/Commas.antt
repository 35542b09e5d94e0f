-- ===== src/Csv/Commas.antt =====
-- The comma that ends a field in quotes.
use image_proxy.Base.{
  ℕ, zero, suc, ◌+◌, ◌%◌, ◌≤◌, ◌<◌, ◌≡◌, refl, sym, ap, ap₂, ◌∙◌, inl, inr, true, false, Option,
  none, some, [], ◌∷◌, ◌++◌, append_assoc, arith, ◌==◌, if◌then◌else◌, ==→eq, Bool-cases,
  Option-cases, length, length-append, Bytes,
}
use image_proxy.Csv.Lines.Ends.{cut_other, count_here, count_other}
use image_proxy.Csv.{
  cut, count_char, quote, comma, Found, at_comma, no_comma, at_tail, prepend, find_comma,
}

-- A text with each quote doubled.
unfoldable pub doubled : Bytes → Bytes
doubled [] = []
doubled (x ∷ f) = let rest = doubled f in if x == quote then quote ∷ (quote ∷ rest) else x ∷ rest

pub prepend-prepend : (a b : Bytes) (r : Found) → prepend a (prepend b r) ≡ prepend (a ++ b) r
unfolding prepend
prepend-prepend a b (at_comma x y) = ap (λ t. at_comma t y) (sym (append_assoc a b x))
prepend-prepend a b no_comma = refl
prepend-prepend a b at_tail = refl

pub prepend-nil : (r : Found) → prepend [] r ≡ r
unfolding prepend
prepend-nil (at_comma x y) = refl
prepend-nil no_comma = refl
prepend-nil at_tail = refl

pub doubled-quote :
    (x : ℕ) (f : Bytes) → (x == quote) ≡ true → doubled (x ∷ f) ≡ quote ∷ (quote ∷ doubled f)
unfolding doubled
doubled-quote x f e = rw e refl

pub doubled_plain : (x : ℕ) (f : Bytes) → (x == quote) ≡ false → doubled (x ∷ f) ≡ x ∷ doubled f
unfolding doubled
doubled_plain x f e = rw e refl

-- What `find_comma` does with the text that `memchr` has cut.
comma_cut : ℕ → ℕ → Option (Bytes × Bytes) → Found
comma_cut fuel quotes none = no_comma
comma_cut fuel quotes (some (a, b)) =
    let quotes1 = quotes + count_char quote a in
    if quotes1 % 2 == 0
    then at_comma a b
    else prepend (a ++ (comma ∷ [])) (find_comma fuel quotes1 b)

find_comma-cut :
    (fuel quotes x : ℕ) (s : Bytes)
    → find_comma (suc fuel) quotes (x ∷ s) ≡ comma_cut fuel quotes (cut comma (x ∷ s))
unfolding find_comma comma_cut
find_comma-cut fuel quotes x s = elim (Option-cases (cut comma (x ∷ s))) [
  | inl e ↦ rw (find_comma, e) refl
  | inr (_, e) ↦ rw (find_comma, e) refl
]

comma_cut-cons :
    (fuel quotes quotes1 x : ℕ) (r : Option (Bytes × Bytes))
    → ((a : Bytes) → quotes + count_char quote (x ∷ a) ≡ quotes1 + count_char quote a)
    → comma_cut fuel quotes (elim r [ none ↦ none | some (a, b) ↦ some (x ∷ a, b) ])
      ≡ prepend (x ∷ []) (comma_cut fuel quotes1 r)
unfolding comma_cut prepend
comma_cut-cons fuel quotes quotes1 x none e = refl
comma_cut-cons fuel quotes quotes1 x (some (a, b)) e =
    let n = quotes1 + count_char quote a in
    rw (e a) (elim (Bool-cases (n % 2 == 0)) [
      | inl even ↦ rw even refl
      | inr odd ↦ rw odd (sym (prepend-prepend (x ∷ []) (a ++ (comma ∷ [])) (find_comma fuel n b)))
    ])

-- A character that is no comma, in front of more.
find_comma-other :
    (fuel quotes quotes1 x y : ℕ) (s : Bytes)
    → (x == comma) ≡ false
    → ((a : Bytes) → quotes + count_char quote (x ∷ a) ≡ quotes1 + count_char quote a)
    → find_comma (suc fuel) quotes (x ∷ (y ∷ s))
      ≡ prepend (x ∷ []) (find_comma (suc fuel) quotes1 (y ∷ s))
find_comma-other fuel quotes quotes1 x y s o e =
    find_comma-cut fuel quotes x (y ∷ s)
    ∙ ap (comma_cut fuel quotes) (cut_other comma x (y ∷ s) o)
    ∙ comma_cut-cons fuel quotes quotes1 x (cut comma (y ∷ s)) e
    ∙ ap (prepend (x ∷ [])) (sym (find_comma-cut fuel quotes1 y s))

find_comma-quote :
    (fuel quotes : ℕ) (s : Bytes)
    → 0 < length s
    → find_comma (suc fuel) quotes (quote ∷ s)
      ≡ prepend (quote ∷ []) (find_comma (suc fuel) (suc quotes) s)
find_comma-quote fuel quotes [] h = absurd (omega arith)
find_comma-quote fuel quotes (y ∷ s) h =
    find_comma-other fuel quotes (suc quotes) quote y s refl (λ a. count_here quotes quote a refl)

find_comma-plain :
    (fuel quotes x : ℕ) (s : Bytes)
    → (x == comma) ≡ false
    → (x == quote) ≡ false
    → 0 < length s
    → find_comma (suc fuel) quotes (x ∷ s) ≡ prepend (x ∷ []) (find_comma (suc fuel) quotes s)
find_comma-plain fuel quotes x [] o p h = absurd (omega arith)
find_comma-plain fuel quotes x (y ∷ s) o p h =
    find_comma-other fuel quotes quotes x y s o (λ a. count_other quotes x a p)

none_counted : (quotes : ℕ) → quotes + count_char quote [] ≡ quotes
unfolding count_char
none_counted quotes = omega arith

-- A comma in quotes, and one that ends the field.
find_comma-inside :
    (fuel quotes : ℕ) (s : Bytes)
    → quotes % 2 ≡ 1
    → find_comma (suc fuel) quotes (comma ∷ s) ≡ prepend (comma ∷ []) (find_comma fuel quotes s)
unfolding find_comma cut count_char
find_comma-inside fuel quotes s h =
    let odd : ((quotes + count_char quote []) % 2 == 0) ≡ false = ground (arith, h) in
    rw odd (ap (λ n. prepend (comma ∷ []) (find_comma fuel n s)) (none_counted quotes))

find_comma-here :
    (fuel quotes : ℕ) (s : Bytes)
    → quotes % 2 ≡ 0
    → find_comma (suc fuel) quotes (comma ∷ s) ≡ at_comma [] s
unfolding find_comma cut count_char
find_comma-here fuel quotes s h =
    let even : ((quotes + count_char quote []) % 2 == 0) ≡ true = ground (arith, h) in rw even refl

-- The search goes through a text with doubled quotes that stands in quotes, to what is behind it.
find_comma-doubled :
    (f s : Bytes) (r : Found)
    → 0 < length s
    → ((fuel quotes : ℕ) → quotes % 2 ≡ 1 → length s ≤ fuel → find_comma fuel quotes s ≡ r)
    → (fuel quotes : ℕ) → quotes % 2 ≡ 1
    → length (doubled f ++ s) ≤ fuel
    → find_comma fuel quotes (doubled f ++ s) ≡ prepend (doubled f) r
unfolding doubled
find_comma-doubled [] s r h k fuel quotes q l = k fuel quotes q l ∙ sym (prepend-nil r)
find_comma-doubled (x ∷ f) s r h k zero quotes q l =
    absurd (omega (arith, l, length-append (doubled (x ∷ f)) s, h))
find_comma-doubled (x ∷ f) s r h k (suc fuel) quotes q l =
    let d = doubled f in
    let ih = find_comma-doubled f s r h k in
    let total = length-append d s in
    let more : 0 < length (d ++ s) = omega (arith, total, h) in
    elim (Bool-cases (x == quote)) [
      | inl quoted ↦
          let text = doubled-quote x f quoted in
          ap (λ t. find_comma (suc fuel) quotes (t ++ s)) text
          ∙ find_comma-quote fuel quotes (quote ∷ (d ++ s)) (omega arith)
          ∙ ap (prepend (quote ∷ [])) (
              find_comma-quote fuel (suc quotes) (d ++ s) more
              ∙ ap (prepend (quote ∷ [])) (
                  ih (suc fuel) (suc (suc quotes)) (omega (arith, q))
                    (omega (arith, l, ap (λ t. length (t ++ s)) text)))
              ∙ prepend-prepend (quote ∷ []) d r)
          ∙ prepend-prepend (quote ∷ []) (quote ∷ d) r
          ∙ ap (λ t. prepend t r) (sym text)
      | inr plain ↦
          let text = doubled_plain x f plain in
          let size = ap (λ t. length (t ++ s)) text in
          let close : prepend (x ∷ []) (prepend d r) ≡ prepend (doubled (x ∷ f)) r =
            prepend-prepend (x ∷ []) d r ∙ ap (λ t. prepend t r) (sym text) in
          ap (λ t. find_comma (suc fuel) quotes (t ++ s)) text ∙ elim (Bool-cases (x == comma)) [
            | inl inside ↦
                let e = ==→eq x comma inside in
                ap (λ c. find_comma (suc fuel) quotes (c ∷ (d ++ s))) e
                ∙ find_comma-inside fuel quotes (d ++ s) q
                ∙ ap₂ (λ c t. prepend (c ∷ []) t) (sym e)
                    (ih fuel quotes q (omega (arith, l, size)))
                ∙ close
            | inr other ↦
                find_comma-plain fuel quotes x (d ++ s) other plain more
                ∙ ap (prepend (x ∷ [])) (ih (suc fuel) quotes q (omega (arith, l, size)))
                ∙ close
          ]
    ]

last_quote-comma :
    (fuel quotes : ℕ) (s : Bytes)
    → quotes % 2 ≡ 1
    → length (quote ∷ (comma ∷ s)) ≤ fuel
    → find_comma fuel quotes (quote ∷ (comma ∷ s)) ≡ at_comma (quote ∷ []) s
unfolding prepend
last_quote-comma zero quotes s q l = absurd (omega (arith, l))
last_quote-comma (suc fuel) quotes s q l =
    find_comma-quote fuel quotes (comma ∷ s) (omega arith)
    ∙ ap (prepend (quote ∷ [])) (find_comma-here fuel (suc quotes) s (omega (arith, q)))

last_quote-end :
    (fuel quotes : ℕ) → length (quote ∷ []) ≤ fuel → find_comma fuel quotes (quote ∷ []) ≡ no_comma
unfolding find_comma cut
last_quote-end zero quotes l = absurd (omega (arith, l))
last_quote-end (suc fuel) quotes l = refl

-- A field in quotes, with the comma behind it or with the end of the row.
pub find_comma-quoted :
    (f s : Bytes) (fuel : ℕ)
    → length (quote ∷ (doubled f ++ (quote ∷ (comma ∷ s)))) ≤ fuel
    → find_comma fuel 0 (quote ∷ (doubled f ++ (quote ∷ (comma ∷ s))))
      ≡ at_comma (quote ∷ (doubled f ++ (quote ∷ []))) s
unfolding prepend
find_comma-quoted f s zero h = absurd (omega (arith, h))
find_comma-quoted f s (suc fuel) h =
    let behind : (fuel1 quotes : ℕ)
        → quotes % 2 ≡ 1
        → length (quote ∷ (comma ∷ s)) ≤ fuel1
        → find_comma fuel1 quotes (quote ∷ (comma ∷ s)) ≡ at_comma (quote ∷ []) s =
      λ fuel1 quotes q l. last_quote-comma fuel1 quotes s q l in
    find_comma-quote fuel 0 (doubled f ++ (quote ∷ (comma ∷ s)))
      (omega (arith, length-append (doubled f) (quote ∷ (comma ∷ s))))
    ∙ ap (prepend (quote ∷ [])) (
        find_comma-doubled f (quote ∷ (comma ∷ s)) (at_comma (quote ∷ []) s) (omega arith) behind
          (suc fuel) 1 refl (omega (arith, h)))

pub find_comma-last :
    (f : Bytes) (fuel : ℕ)
    → length (quote ∷ (doubled f ++ (quote ∷ []))) ≤ fuel
    → find_comma fuel 0 (quote ∷ (doubled f ++ (quote ∷ []))) ≡ no_comma
unfolding prepend
find_comma-last f zero h = absurd (omega (arith, h))
find_comma-last f (suc fuel) h =
    find_comma-quote fuel 0 (doubled f ++ (quote ∷ []))
      (omega (arith, length-append (doubled f) (quote ∷ [])))
    ∙ ap (prepend (quote ∷ [])) (
        find_comma-doubled f (quote ∷ []) no_comma (omega arith)
          (λ fuel1 quotes q l. last_quote-end fuel1 quotes l) (suc fuel) 1 refl (omega (arith, h)))
