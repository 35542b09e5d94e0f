-- ===== src/Response/Sizes.antt =====
-- The lengths of the numbers, messages and bodies of the responses.
use image_proxy.Base.{
  ℕ, zero, suc, ◌+◌, ◌/◌, ◌%◌, ◌≤◌, ◌<◌, ◌≡◌, refl, inl, inr, false, List, [], ◌∷◌, ◌++◌, arith,
  ltb, leb, lt→ltb, Bool-cases, length, get_or, All, length-append, Bytes, codes,
}
use image_proxy.Base.Int.{ℤ, pos, negsuc}
use image_proxy.Response.{
  digits, show_unsigned, show_int, find_message, message, responses, digit, string_format, pf_s,
  find_pixfmt, json_response, Page,
}

length-digits :
    (base fuel n : ℕ) (acc : Bytes) → length (digits base fuel n acc) ≤ fuel + length acc
unfolding digits
length-digits base zero n acc = omega arith
length-digits base (suc fuel) n acc = elim (Bool-cases (ltb n base)) [
  | inl e ↦ rw e (omega arith)
  | inr e ↦ rw e (omega (arith, length-digits base fuel (n / base) (digit (n % base) ∷ acc)))
]

pub length-show_unsigned : (n : ℕ) → length (show_unsigned n) ≤ 20
unfolding show_unsigned
length-show_unsigned n = omega (arith, length-digits 10 20 n [])

pub length-show_int : (z : ℤ) → length (show_int z) ≤ 21
unfolding show_int
length-show_int (pos n) = omega (arith, length-show_unsigned n)
length-show_int (negsuc n) = omega (arith, length-show_unsigned (n + 1))

module _ (bound : ℕ) where
  abbrev Short : List (ℕ × Bytes) → Type 0
  Short = All (λ (r : ℕ × Bytes). length r.1 ≤ bound)

  length-find_message :
      (rs : List (ℕ × Bytes)) (code : ℕ)
      → 15 ≤ bound
      → Short rs
      → length (find_message rs code) ≤ bound
  unfolding find_message
  length-find_message [] code b h = omega arith
  length-find_message ((c, m) ∷ rs) code b h = ground (arith, length-find_message rs code b h.1)

  length-get_or :
      (l : List Bytes) (i : ℕ)
      → All (λ (t : Bytes). length t ≤ bound) l
      → length (get_or l i []) ≤ bound
  length-get_or [] i h = omega arith
  length-get_or (t ∷ l) zero h = h.0
  length-get_or (t ∷ l) (suc i) h = length-get_or l i h.1

pub length-message : (z : ℤ) → length (message z) ≤ 15
unfolding message
length-message (pos n) = length-find_message 15 responses n (omega arith) (omega arith)
length-message (negsuc n) = omega arith

-- The body of an answer about a page.
abbrev pub json_text : List ℕ → Page → Bytes
json_text pf page =
    codes "{'width' : '"
    ++ (show_unsigned page.page_width
        ++ (codes "', 'height' : '"
            ++ (show_unsigned page.page_height
                ++ (codes "', 'pf' : '"
                    ++ (get_or pf_s (find_pixfmt pf 0 page.page_pixfmt) [] ++ codes "'}")))))

pub length-json_text : (pf : List ℕ) (page : Page) → length (json_text pf page) < 0x80
length-json_text pf page =
    let name = get_or pf_s (find_pixfmt pf 0 page.page_pixfmt) [] in
    let w = show_unsigned page.page_width in
    let h = show_unsigned page.page_height in
    let n : length name ≤ 7 =
      length-get_or 7 pf_s (find_pixfmt pf 0 page.page_pixfmt) (omega arith) in
    omega (
      arith,
      n,
      length-show_unsigned page.page_width,
      length-show_unsigned page.page_height,
      length-append w
          (codes "', 'height' : '" ++ (h ++ (codes "', 'pf' : '" ++ (name ++ codes "'}")))),
      length-append h (codes "', 'pf' : '" ++ (name ++ codes "'}")),
      length-append name (codes "'}"),
    )

pub json_response-text : (pf : List ℕ) (page : Page) → json_response pf page ≡ json_text pf page
unfolding json_response string_format
json_response-text pf page =
    let fits : leb 0x100 (length (json_text pf page)) ≡ false =
      ground (arith, length-json_text pf page) in
    rw fits refl

-- A number that has at most so many digits after its first one.
abbrev pub Fits : ℕ → ℕ → ℕ → Type 0
Fits base zero n = n < base
Fits base (suc k) n = Fits base k (n / base)

pub length-digits_fits :
    (base k fuel n : ℕ) (acc : Bytes)
    → Fits base k n
    → length (digits base fuel n acc) ≤ suc k + length acc
unfolding digits
length-digits_fits base k zero n acc h = omega arith
length-digits_fits base zero (suc fuel) n acc h = rw (lt→ltb n base h) (omega arith)
length-digits_fits base (suc k) (suc fuel) n acc h = elim (Bool-cases (ltb n base)) [
  | inl e ↦ rw e (omega arith)
  | inr e ↦
      rw e (omega (arith, length-digits_fits base k fuel (n / base) (digit (n % base) ∷ acc) h))
]

length-show_unsigned_small : (n : ℕ) → n < 0x80 → length (show_unsigned n) ≤ 3
unfolding show_unsigned
length-show_unsigned_small n h = length-digits_fits 10 2 20 n [] (omega arith)

shown_small : (n : ℕ) → n < 0x80 → string_format 0x10 (show_unsigned n) ≡ show_unsigned n
unfolding string_format
shown_small n h =
    let short : leb 0x10 (length (show_unsigned n)) ≡ false =
      ground (arith, length-show_unsigned_small n h) in
    rw short refl

pub shown_length :
    (pf : List ℕ) (page : Page)
    → string_format 0x10 (show_unsigned (length (json_text pf page)))
      ≡ show_unsigned (length (json_text pf page))
shown_length pf page = shown_small (length (json_text pf page)) (length-json_text pf page)
