-- ===== src/Query/Fields.antt =====
-- What `GetQuery` makes of the fields of a query.
use image_proxy.Base.{
  ℕ, ◌≡◌, refl, inl, inr, true, false, none, some, List, [], ◌∷◌, ◌++◌, map, arith, ◌==◌,
  if◌then◌else◌, ==→eq, Bool-cases, length, Bytes, codes,
}
use image_proxy.Split.{Piece, as_string, scan}
use image_proxy.Split.Pieces.{split_on, texts, visit-split_on}
use image_proxy.Split.Pairs.{split_pair_lem, starts_with}
use image_proxy.Strings.{equals_ignore_case, same_letters, fold_char}
use image_proxy.Query.{
  assign, try_convert_int, Query, set_value, set_pair, set_pairs, piece_texts, query_loop, and_then,
}

texts-piece_texts :
    (text : Bytes) (ps : List Piece) (ts : List Bytes)
    → texts text ps ≡ map some ts
    → piece_texts text ps ≡ some ts
unfolding piece_texts and_then
texts-piece_texts text [] [] e = refl
texts-piece_texts text [] (t ∷ ts) e = absurd (cc e)
texts-piece_texts text (p ∷ ps) [] e = absurd (cc e)
texts-piece_texts text (p ∷ ps) (t ∷ ts) e =
    let here : as_string text p ≡ some t = cc e in
    let rest : texts text ps ≡ map some ts = cc e in
    rw (here, texts-piece_texts text ps ts rest) refl

-- No key is both names.
w_not_h :
    (key : Bytes)
    → equals_ignore_case key (codes "w") ≡ true
    → equals_ignore_case key (codes "h") ≡ false
unfolding equals_ignore_case same_letters fold_char
w_not_h [] e = refl
w_not_h (c ∷ []) e = elim (Bool-cases (fold_char c == fold_char 119)) [
  | inl same ↦
      let here : fold_char c ≡ fold_char 119 = ==→eq (fold_char c) (fold_char 119) same in
      rw here refl
  | inr other ↦ absurd (cc (e, other))
]
w_not_h (c ∷ (d ∷ key)) e =
    let long : (length (c ∷ (d ∷ key)) == 1) ≡ false = ground arith in rw long refl

module _ (long_bits : ℕ) (strtoul : Bytes → ℕ × ℕ) where
  -- On a query that is not empty, the loop is over the texts between the characters "&".
  pub query_loop-split_on :
      (q : Query) (x : ℕ) (xs : Bytes)
      → query_loop long_bits strtoul q (x ∷ xs)
        ≡ set_pairs long_bits strtoul q (split_on 38 (x ∷ xs))
  unfolding query_loop and_then
  query_loop-split_on q x xs =
      let (ps, v, t) = visit-split_on 38 x xs in
      rw (v, texts-piece_texts (x ∷ xs) ps (split_on 38 (x ∷ xs)) t) refl

  -- The number at the front of a value goes to a field, if there is one.
  abbrev pub parsed : Bytes → ℕ → ℕ
  parsed value old = assign (try_convert_int long_bits (strtoul value)) old

  set_value_width :
      (q : Query) (key value : Bytes)
      → equals_ignore_case key (codes "w") ≡ true
      → set_value long_bits strtoul q key value ≡ record q { width = parsed value q.width }
  unfolding set_value
  set_value_width q key value e = rw (e, w_not_h key e) refl

  set_value_height :
      (q : Query) (key value : Bytes)
      → equals_ignore_case key (codes "w") ≡ false
      → equals_ignore_case key (codes "h") ≡ true
      → set_value long_bits strtoul q key value ≡ record q { height = parsed value q.height }
  unfolding set_value
  set_value_height q key value n e = rw (n, e) refl

  pub set_pair-parsed :
      (q : Query) (key value : Bytes)
      → scan 61 key ≡ length key
      → set_pair long_bits strtoul q (key ++ (61 ∷ value)) ≡ (
          if length value == 0
          then some q
          else if equals_ignore_case key (codes "w")
          then (if starts_with 61 value
              then none
              else some (record q { width = parsed value q.width }))
          else if equals_ignore_case key (codes "h")
          then (if starts_with 61 value
              then none
              else some (record q { height = parsed value q.height }))
          else some q)
  unfolding set_pair
  set_pair-parsed q key value n =
      let (k, s, v) = split_pair_lem 61 key value n in
      elim (Bool-cases (equals_ignore_case key (codes "w"))) [
        | inl w ↦ elim (Bool-cases (starts_with 61 value)) [
          | inl e ↦ rw (k, s, v, w, e) refl
          | inr e ↦ rw (k, s, v, w, e, set_value_width q key value w) refl
        ]
        | inr no_w ↦ elim (Bool-cases (equals_ignore_case key (codes "h"))) [
          | inl h ↦ elim (Bool-cases (starts_with 61 value)) [
            | inl e ↦ rw (k, s, v, no_w, h, e) refl
            | inr e ↦ rw (k, s, v, no_w, h, e, set_value_height q key value no_w h) refl
          ]
          | inr no_h ↦ rw (k, s, v, no_w, no_h) refl
        ]
      ]
