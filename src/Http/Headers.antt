-- ===== src/Http/Headers.antt =====
-- The header table that the callbacks fill, from the pieces in which the parser hands over names
-- and values.
use image_proxy.Base.{
  ℕ, zero, suc, ◌+◌, ◌-◌, ◌≡◌, refl, sym, ap, ◌∙◌, true, List, [], ◌∷◌, ◌++◌, map, append_assoc,
  arith, ◌==◌, if◌then◌else◌, length, take, replicate, length-append, take-all, Bytes,
}
use image_proxy.Http.{Header, HttpParser, no_header, on_header_field, on_header_value}
use image_proxy.Http.Parts.{Pieces, stored, name_parts, value_parts, read_header, read_header-room}

on_header_field-full :
    (p : HttpParser) (c : Bytes)
    → p.header_it ≡ p.tail
    → on_header_field p c ≡ record p { head = p.tail }
unfolding on_header_field
on_header_field-full p c e =
    let h : (if p.head == p.header_it then p.head else p.header_it) ≡ p.tail = ground arith in
    let t : (p.tail == p.tail) ≡ true = ground arith in rw (h, t)

name_parts-full :
    (p : HttpParser) (cs : List Bytes)
    → p.header_it ≡ p.tail
    → name_parts (record p { head = p.tail }) cs ≡ record p { head = p.tail }
unfolding name_parts
name_parts-full p [] e = refl
name_parts-full p (c ∷ cs) e =
    rw (on_header_field-full (record p { head = p.tail }) c e) (name_parts-full p cs e)

on_header_value-full : (p : HttpParser) (c : Bytes) → p.head ≡ p.tail → on_header_value p c ≡ p
unfolding on_header_value
on_header_value-full p c h = let t : (p.head == p.tail) ≡ true = ground arith in rw t

value_parts-full : (p : HttpParser) (cs : List Bytes) → p.head ≡ p.tail → value_parts p cs ≡ p
unfolding value_parts
value_parts-full p [] h = refl
value_parts-full p (c ∷ cs) h = rw (on_header_value-full p c h) (value_parts-full p cs h)

-- Once the table is full further headers are passed over.
read_header-full :
    (p : HttpParser) (f : Pieces)
    → p.header_it ≡ p.tail
    → read_header p f ≡ record p { head = p.tail }
unfolding read_header
read_header-full p f e =
    rw (on_header_field-full p f.name e, name_parts-full p f.more_name e)
      (rw (on_header_value-full (record p { head = p.tail }) f.text refl)
        (value_parts-full (record p { head = p.tail }) f.more_text refl))

-- The callbacks of all headers of a message.
unfoldable pub read_headers : HttpParser → List Pieces → HttpParser
read_headers p [] = p
read_headers p (f ∷ fs) = read_headers (read_header p f) fs

read_headers-full :
    (p : HttpParser) (fs : List Pieces)
    → p.header_it ≡ p.tail
    → (at : ℕ) × (read_headers p fs ≡ record p { head = at })
unfolding read_headers
read_headers-full p [] e = (p.head, refl)
read_headers-full p (f ∷ fs) e =
    let (at, r) = read_headers-full (record p { head = p.tail }) fs e in
    (at, rw (read_header-full p f e) r)

same_table :
    (p : HttpParser) (at : ℕ) {it it' : ℕ} {table table' : List Header}
    → it ≡ it'
    → table ≡ table'
    → record p { head = at; header_it = it; headers = table }
      ≡ record p { head = at; header_it = it'; headers = table' }
same_table p at e t = λ i. record p { head = at; header_it = e i; headers = t i }

same_room :
    (done : List Header) (some_of : List Pieces) {m n : ℕ}
    → m ≡ n
    → done ++ (map stored some_of ++ replicate m no_header)
      ≡ done ++ (map stored some_of ++ replicate n no_header)
same_room done some_of e = ap (λ m. done ++ (map stored some_of ++ replicate m no_header)) e

-- The table behind `done` takes in the headers for which it has room.
pub read_headers_lem :
    (p : HttpParser) (done : List Header) (room : ℕ) (fs : List Pieces)
    → p.headers ≡ done ++ replicate room no_header
    → p.header_it ≡ length done
    → p.tail ≡ length done + room
    → (at : ℕ) × (read_headers p fs ≡ record p {
      head = at;
      header_it = length done + length (take room fs);
      headers = done ++ (map stored (take room fs) ++ replicate (room - length fs) no_header);
    })
unfolding read_headers
read_headers_lem p done room [] table it end =
    let none_taken : take {A = Pieces} room [] ≡ [] = take-all room [] (omega arith) in
    let n : length done ≡ length done + 0 = omega arith in
    let m : room ≡ room - 0 = omega arith in
    (p.head, rw (none_taken) (same_table p p.head (it ∙ n) (table ∙ same_room done [] m)))
read_headers_lem p done zero (f ∷ fs) table it end =
    let (at, r) = read_headers-full p (f ∷ fs) (omega arith) in
    let n : length done ≡ length done + 0 = omega arith in
    let m : 0 ≡ 0 - length (f ∷ fs) = omega arith in
    (at, r ∙ same_table p at (it ∙ n) (table ∙ same_room done [] m))
read_headers_lem p done (suc room) (f ∷ fs) table it end =
    let q : HttpParser = record p {
      head = length done;
      header_it = length done + 1;
      headers = done ++ (stored f ∷ replicate room no_header);
    } in
    let (at, r) =
      read_headers_lem q (done ++ (stored f ∷ [])) room fs
        (sym (append_assoc done (stored f ∷ []) (replicate room no_header)))
        (omega (arith, length-append done (stored f ∷ [])))
        (omega (arith, length-append done (stored f ∷ []))) in
    let n : length (done ++ (stored f ∷ [])) + length (take room fs)
        ≡ length done + suc (length (take room fs)) =
      omega (arith, length-append done (stored f ∷ [])) in
    let m : room - length fs ≡ suc room - length (f ∷ fs) = omega arith in
    (
      at,
      rw (read_header-room p done (replicate room no_header) f table it (omega arith)) (
          r
          ∙ same_table p at n (
              append_assoc done (stored f ∷ [])
                (map stored (take room fs) ++ replicate (room - length fs) no_header)
              ∙ same_room done (f ∷ take room fs) m)),
    )
