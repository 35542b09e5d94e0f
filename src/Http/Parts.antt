-- ===== src/Http/Parts.antt =====
-- A header that comes in pieces, and its place in the table.
use image_proxy.Base.{
  ℕ, zero, suc, ◌+◌, ◌-◌, ◌<◌, ◌≡◌, refl, sym, ap, ◌∙◌, ◌⊎◌, inl, inr, false, List, [], ◌∷◌, ◌++◌,
  flatten, append-nil, append_assoc, arith, ◌==◌, if◌then◌else◌, lt→ltb, length, take, length-take,
  take-take, take-all, take-append_le, take-append_add, Bytes, dec_le,
}
use image_proxy.Strings.Laws.{string_copy-take}
use image_proxy.Http.{
  Header, HttpParser, append, field_cap, value_cap, append_field, append_value, no_header,
  on_header_field, on_header_value,
}

-- What the table keeps of some text in a buffer of `n` bytes.
abbrev pub clip : ℕ → Bytes → Bytes
clip n s = take (n - 1) s

pub take-append_take : (k : ℕ) (x c : Bytes) → take k (take k x ++ c) ≡ take k (x ++ c)
take-append_take k x c = elim (dec_le (length x) k) [
  | yes h ↦ rw (take-all k x h)
  | no h ↦ rw (
    take-append_le k x c (omega arith),
    take-append_le k (take k x) c (omega (arith, length-take k x)),
    take-take k k x (omega arith),
  )
]

-- Appending to a kept text keeps the longer text.
pub append-clip : (n : ℕ) (x c : Bytes) → 0 < n → append n (clip n x) c ≡ clip n (x ++ c)
unfolding append
append-clip n x c h =
    let room : length (clip n x) < n = omega (arith, length-take (n - 1) x) in
    rw
      (
        lt→ltb 0 (n - length (clip n x)) (omega (arith, room)),
        string_copy-take (n - length (clip n x)) c (omega (arith, room)),
      )
      (sym (take-append_add (n - 1) (n - length (clip n x) - 1) (clip n x) c (omega (arith, room)))
        ∙ take-append_take (n - 1) x c)

pub append_field-at :
    (done rest : List Header) (h : Header) (i : ℕ) (c : Bytes)
    → i ≡ length done
    → append_field (done ++ (h ∷ rest)) i c
      ≡ done ++ (record h { field = append field_cap h.field c } ∷ rest)
unfolding append_field
append_field-at [] rest h zero c e = refl
append_field-at [] rest h (suc i) c e = absurd (omega arith)
append_field-at (d ∷ done) rest h zero c e = absurd (omega arith)
append_field-at (d ∷ done) rest h (suc i) c e =
    ap (◌∷◌ d) (append_field-at done rest h i c (omega arith))

pub append_value-at :
    (done rest : List Header) (h : Header) (i : ℕ) (c : Bytes)
    → i ≡ length done
    → append_value (done ++ (h ∷ rest)) i c
      ≡ done ++ (record h { value = append value_cap h.value c } ∷ rest)
unfolding append_value
append_value-at [] rest h zero c e = refl
append_value-at [] rest h (suc i) c e = absurd (omega arith)
append_value-at (d ∷ done) rest h zero c e = absurd (omega arith)
append_value-at (d ∷ done) rest h (suc i) c e =
    ap (◌∷◌ d) (append_value-at done rest h i c (omega arith))

-- A header of a message: its name and its value, each in one piece or more.
pub record Pieces : Type 0 where
  pub name : Bytes
  pub more_name : List Bytes
  pub text : Bytes
  pub more_text : List Bytes

-- The header that the table has of it.
abbrev pub stored : Pieces → Header
stored f = record {
  field = clip field_cap (f.name ++ flatten f.more_name);
  value = clip value_cap (f.text ++ flatten f.more_text);
}

unfoldable pub name_parts : HttpParser → List Bytes → HttpParser
name_parts p [] = p
name_parts p (c ∷ cs) = name_parts (on_header_field p c) cs

unfoldable pub value_parts : HttpParser → List Bytes → HttpParser
value_parts p [] = p
value_parts p (c ∷ cs) = value_parts (on_header_value p c) cs

-- The parser while it takes in the header behind `done`, with what it has of its name and value.
abbrev pub filling : HttpParser → List Header → List Header → Bytes → Bytes → ℕ → HttpParser
filling p done rest x v it = record p {
  head = length done;
  header_it = it;
  headers = done ++ (record { field = clip field_cap x; value = clip value_cap v } ∷ rest);
}

module _ (p : HttpParser) (done rest : List Header) (inside : length done < p.tail) where
  pub on_header_field_at :
      (x v c : Bytes) (at : ℕ)
      → on_header_field (record (filling p done rest x v (length done)) { head = at }) c
        ≡ filling p done rest (x ++ c) v (length done)
  unfolding on_header_field
  on_header_field_at x v c at =
      let h : (if at == length done then at else length done) ≡ length done = ground arith in
      let t : (length done == p.tail) ≡ false = ground arith in
      rw (
        h,
        t,
        append_field-at done rest _ (length done) c refl,
        append-clip field_cap x c (omega arith),
      )

  pub on_header_value_at :
      (x v c : Bytes) (it : ℕ)
      → (it ≡ length done) ⊎ (it ≡ length done + 1)
      → on_header_value (filling p done rest x v it) c
        ≡ filling p done rest x (v ++ c) (length done + 1)
  unfolding on_header_value
  on_header_value_at x v c it e =
      let t : (length done == p.tail) ≡ false = ground arith in
      let n : (if length done == it then it + 1 else it) ≡ length done + 1 = ground arith in
      rw (
        t,
        n,
        append_value-at done rest _ (length done) c refl,
        append-clip value_cap v c (omega arith),
      )

  pub name_parts_lem :
      (x v : Bytes) (cs : List Bytes)
      → name_parts (filling p done rest x v (length done)) cs
        ≡ filling p done rest (x ++ flatten cs) v (length done)
  unfolding name_parts flatten
  name_parts_lem x v [] = rw append-nil
  name_parts_lem x v (c ∷ cs) =
      rw (on_header_field_at x v c (length done), name_parts_lem (x ++ c) v cs, append_assoc)

  pub value_parts_lem :
      (x v : Bytes) (cs : List Bytes)
      → value_parts (filling p done rest x v (length done + 1)) cs
        ≡ filling p done rest x (v ++ flatten cs) (length done + 1)
  unfolding value_parts flatten
  value_parts_lem x v [] = rw append-nil
  value_parts_lem x v (c ∷ cs) = rw (
    on_header_value_at x v c (length done + 1) (inr refl),
    value_parts_lem x (v ++ c) cs,
    append_assoc,
  )

-- All callbacks of one header.
unfoldable pub read_header : HttpParser → Pieces → HttpParser
read_header p f =
    value_parts (on_header_value (name_parts (on_header_field p f.name) f.more_name) f.text)
      f.more_text

-- While there is room a header goes to the next slot.
pub read_header-room :
    (p : HttpParser) (done rest : List Header) (f : Pieces)
    → p.headers ≡ done ++ (no_header ∷ rest)
    → p.header_it ≡ length done
    → length done < p.tail
    → read_header p f ≡ record p {
      head = length done;
      header_it = length done + 1;
      headers = done ++ (stored f ∷ rest);
    }
unfolding read_header
read_header-room p done rest f table it inside = rw (
  start,
  on_header_field_at p done rest inside [] [] f.name p.head,
  name_parts_lem p done rest inside f.name [] f.more_name,
  on_header_value_at p done rest inside (f.name ++ flatten f.more_name) [] f.text (length done)
      (inl refl),
  value_parts_lem p done rest inside (f.name ++ flatten f.more_name) f.text f.more_text,
)
  where
    start : p ≡ record (filling p done rest [] [] (length done)) { head = p.head }
    start = λ i. record p { header_it = it i; headers = table i }
