-- ===== src/Csv/Lines/Search.antt =====
-- The search for the end of a line, over as many reads as it takes.
use image_proxy.Base.{
  ℕ, zero, suc, ◌+◌, ◌^◌, ◌≤◌, ◌<◌, ◌≡◌, sym, ap, ap₂, subst, ◌∙◌, ◌⊎◌, inl, inr, Option, none,
  some, ◌++◌, arith, Option-cases, length, take, drop, take-all, drop-all, take-append_le,
  drop-append_le, Bytes,
}
use image_proxy.Copy.Streams.{Reader}
use image_proxy.Csv.Lines.{CsvReader, put_front, find_eol, refill, fill_buf, fill_line}
use image_proxy.Csv.Lines.Ends.{line_end, continue_line, line_end-append, find_eol-line_end}
use image_proxy.Csv.Lines.Filled.{unread, Filled, Refilled, refilled, refill-Refilled}

module _ {ℓ} {S : Type ℓ} {input_read : S → ℕ → S × Bytes} (n : ℕ)
    (stream : Reader S input_read) where
  -- What the search finds: the end of the first line of the text, or that the input is at its end.
  pub data Searched (text : Bytes) : CsvReader S × Option (Bytes × Bytes) → Type ℓ where
    ended :
        (r : CsvReader S) (a b : Bytes)
        → Filled n stream text r
        → (line_end 0 text).1 ≡ some (a, b ++ unread n stream r.input)
        → line_end 0 r.left ≡ (r.quote_chars, some (a, b))
        → Searched text (r, some (a, b))
    unended :
        (r : CsvReader S)
        → Filled n stream text r
        → r.input ≡ none
        → (line_end 0 text).1 ≡ none
        → Searched text (r, none)

  -- One more round than reads.
  unfoldable pub rounds : Option S → ℕ
  rounds none = 1
  rounds (some s) = length (stream.rest s) + 2

  fewer_rounds :
      (i j : Option S) (s : S)
      → i ≡ some s
      → (j ≡ none) ⊎ (length (unread n stream j) < length (unread n stream i))
      → rounds j < rounds i
  unfolding rounds unread
  fewer_rounds (some t) none s e h = omega arith
  fewer_rounds (some t) (some u) s e (inl g) = absurd (cc g)
  fewer_rounds (some t) (some u) s e (inr l) = omega (arith, l)
  fewer_rounds none j s e h = absurd (cc e)

  fill_line_open :
      (fuel : ℕ) (r : CsvReader S) (s : S)
      → r.input ≡ some s
      → fill_line n input_read (suc fuel) r none ≡ (
          let r1 = refill n input_read r s in
          let unseen = drop r1.skip r1.left in
          let found =
            put_front (take r1.skip r1.left) (find_eol (length unseen) r1.quote_chars unseen) in
          fill_line n input_read fuel (record r1 { quote_chars = found.0 }) found.1)
  unfolding fill_line fill_buf
  fill_line_open fuel r s e =
      let next : CsvReader S → CsvReader S × Option (Bytes × Bytes) = λ r1.
        let unseen = drop r1.skip r1.left in
        let found =
          put_front (take r1.skip r1.left) (find_eol (length unseen) r1.quote_chars unseen) in
        fill_line n input_read fuel (record r1 { quote_chars = found.0 }) found.1 in
      ap₂
        (λ i j. elim i [
          | none ↦ (r, none)
          | some _ ↦ next (elim j [ none ↦ r | some t ↦ refill n input_read r t ])
        ])
        e e

  fill_line_closed :
      (fuel : ℕ) (r : CsvReader S)
      → r.input ≡ none
      → fill_line n input_read (suc fuel) r none ≡ (r, none)
  unfolding fill_line fill_buf
  fill_line_closed fuel r e =
      let next : CsvReader S → CsvReader S × Option (Bytes × Bytes) = λ r1.
        let unseen = drop r1.skip r1.left in
        let found =
          put_front (take r1.skip r1.left) (find_eol (length unseen) r1.quote_chars unseen) in
        fill_line n input_read fuel (record r1 { quote_chars = found.0 }) found.1 in
      ap₂
        (λ i j. elim i [
          | none ↦ (r, none)
          | some _ ↦ next (elim j [ none ↦ r | some t ↦ refill n input_read r t ])
        ])
        e e

  -- The lines of the buffer behind a read.
  refilled_end :
      (r r1 : CsvReader S) (bytes : Bytes)
      → line_end 0 r.left ≡ (r.quote_chars, none)
      → r1.left ≡ r.left ++ bytes
      → r1.skip ≡ length r.left
      → r1.quote_chars ≡ r.quote_chars
      → put_front
          (take r1.skip r1.left)
          (find_eol (length (drop r1.skip r1.left)) r1.quote_chars (drop r1.skip r1.left))
        ≡ line_end 0 r1.left
  unfolding continue_line
  refilled_end r r1 bytes e l k q =
      let front : take r1.skip r1.left ≡ r.left =
        ap₂ take k l
        ∙ take-append_le (length r.left) r.left bytes (omega arith)
        ∙ take-all (length r.left) r.left (omega arith) in
      let behind : drop r1.skip r1.left ≡ bytes =
        ap₂ drop k l
        ∙ drop-append_le (length r.left) r.left bytes (omega arith)
        ∙ ap (λ t. t ++ bytes) (drop-all (length r.left) r.left (omega arith)) in
      ap₂ put_front front (
        find_eol-line_end (length (drop r1.skip r1.left)) r1.quote_chars (drop r1.skip r1.left)
          (omega arith)
        ∙ ap₂ line_end q behind)
      ∙ sym (ap (line_end 0) l ∙ line_end-append 0 r.left bytes ∙ ap (continue_line r.left bytes) e)

  line_end-unread :
      (text : Bytes) (r : CsvReader S) (eol : Option (Bytes × Bytes))
      → Filled n stream text r
      → line_end 0 r.left ≡ (r.quote_chars, eol)
      → line_end 0 text ≡ continue_line r.left (unread n stream r.input) (r.quote_chars, eol)
  line_end-unread text r eol f e =
      ap (line_end 0) (sym f.has)
      ∙ line_end-append 0 r.left (unread n stream r.input)
      ∙ ap (continue_line r.left (unread n stream r.input)) e

  -- The rounds behind a read.
  refilled-Searched :
      (text : Bytes) (fuel : ℕ) (r r1 : CsvReader S) (s : S)
      → ((r2 : CsvReader S) (eol : Option (Bytes × Bytes))
          → Filled n stream text r2
          → line_end 0 r2.left ≡ (r2.quote_chars, eol)
          → rounds r2.input ≤ fuel
          → Searched text (fill_line n input_read fuel r2 eol))
      → line_end 0 r.left ≡ (r.quote_chars, none)
      → r.input ≡ some s
      → rounds r.input ≤ suc fuel
      → Refilled n stream text r r1
      → Searched text (
          let unseen = drop r1.skip r1.left in
          let found =
            put_front (take r1.skip r1.left) (find_eol (length unseen) r1.quote_chars unseen) in
          fill_line n input_read fuel (record r1 { quote_chars = found.0 }) found.1)
  refilled-Searched text fuel r r1 s ih e z h (refilled _ bytes f l k q less) =
      ih _ _ (record { has = f.has; enough = f.enough; small = f.small; full = f.full })
        (sym (refilled_end r r1 bytes e l k q))
        (omega (arith, h, fewer_rounds r.input r1.input s z less))

  some_round : (i : Option S) → 0 < rounds i
  unfolding rounds
  some_round none = omega arith
  some_round (some s) = omega arith

  -- With fuel for a round more than there are reads, the search ends.
  pub fill_line-Searched :
      (text : Bytes) (fuel : ℕ) (r : CsvReader S) (eol : Option (Bytes × Bytes))
      → 2 ≤ n
      → n ≤ 2 ^ 30
      → length text ≤ 2 ^ 30
      → Filled n stream text r
      → line_end 0 r.left ≡ (r.quote_chars, eol)
      → rounds r.input ≤ fuel
      → Searched text (fill_line n input_read fuel r eol)
  unfolding fill_line continue_line unread put_front line_end
  fill_line-Searched text zero r eol p q t f e h = absurd (omega (arith, some_round r.input, h))
  fill_line-Searched text (suc fuel) r (some (a, b)) p q t f e h =
      ended r a b f (ap (λ x. x.1) (line_end-unread text r (some (a, b)) f e)) e
  fill_line-Searched text (suc fuel) r none p q t f e h = elim (Option-cases r.input) [
    | inl z ↦ subst (Searched text) (sym (fill_line_closed fuel r z)) (
        unended r f z (
          ap (λ x. x.1) (line_end-unread text r none f e)
          ∙ ap (λ i. (continue_line r.left (unread n stream i) (r.quote_chars, none)).1) z))
    | inr (s, z) ↦ subst (Searched text) (sym (fill_line_open fuel r s z)) (
        refilled-Searched text fuel r (refill n input_read r s) s
          (λ r2 eol f2 e2 h2. fill_line-Searched text fuel r2 eol p q t f2 e2 h2) e z h
          (refill-Refilled n stream text r s p q t f z))
  ]
