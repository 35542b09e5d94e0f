-- ===== src/Utf/Sequence.antt =====
-- The bytes of one character, read back.
use image_proxy.Base.{
  ℕ, zero, suc, ◌+◌, ◌-◌, ◌*◌, ◌/◌, ◌%◌, ◌^◌, ◌≤◌, ◌<◌, ◌≡◌, refl, sym, ap, ap₂, ◌∙◌, Bool, true,
  false, ◌&&◌, ◌||◌, none, some, [], ◌∷◌, ◌++◌, arith, ltb, ◌==◌, if◌then◌else◌, length,
  length-append, holds_below, holds_below_at, Bytes,
}
use image_proxy.Utf.{uc_tail, lead_bits, decode_tail, uc_sequence, decode_rest, utf_to_uc}

decode_tail-one :
    (j w : ℕ) (acc : Bytes)
    → w < 2 ^ 32
    → decode_tail (suc j) (w / 64) ((128 + w % 64) ∷ acc) ≡ decode_tail j w acc
unfolding decode_tail
decode_tail-one j w acc h =
    let t : ((128 + w % 64) / 64 == 2) ≡ true = ground arith in
    let v : (w / 64 * 64 + (128 + w % 64) % 64) % 2 ^ 32 ≡ w = omega arith in rw (t, v) refl

decode_tail-uc_tail :
    (k j m w : ℕ) (acc : Bytes)
    → w < 2 ^ 32
    → m ≡ k + j
    → let (top, bytes) = uc_tail k w acc in decode_tail m top bytes ≡ decode_tail j w acc
unfolding uc_tail
decode_tail-uc_tail zero j m w acc h e = ap (λ i. decode_tail i w acc) (omega (arith, e))
decode_tail-uc_tail (suc k) j m w acc h e =
    decode_tail-uc_tail k (suc j) m (w / 64) ((128 + w % 64) ∷ acc) (omega arith) (omega (arith, e))
    ∙ decode_tail-one j w acc h

pub length-uc_tail : (k w : ℕ) (acc : Bytes) → length (uc_tail k w acc).1 ≡ k + length acc
unfolding uc_tail
length-uc_tail zero w acc = omega arith
length-uc_tail (suc k) w acc = omega (arith, length-uc_tail k (w / 64) ((128 + w % 64) ∷ acc))

-- The bits of a first byte.
leads : ℕ → ℕ → ℕ → Bool
leads n q x = let (m, r) = lead_bits 8 ((256 - 2 ^ (8 - n)) + x) 0 0x80 in (m == n) && (r == q)

read_bits :
    (n q bound x : ℕ)
    → holds_below (leads n q) bound ≡ true
    → x < bound
    → lead_bits 8 ((256 - 2 ^ (8 - n)) + x) 0 0x80 ≡ (n, q)
unfolding leads
read_bits n q bound x h b =
    let t = holds_below_at (leads n q) bound x b h in
    let r = lead_bits 8 ((256 - 2 ^ (8 - n)) + x) 0 0x80 in
    let first : r.0 ≡ n = ground (arith, t) in
    let second : r.1 ≡ q = ground (arith, t) in ap₂ (λ a b. (a, b)) first second

uc_tail-append :
    (k w : ℕ) (acc rest : Bytes)
    → uc_tail k w (acc ++ rest) ≡ ((uc_tail k w acc).0, (uc_tail k w acc).1 ++ rest)
unfolding uc_tail
uc_tail-append zero w acc rest = refl
uc_tail-append (suc k) w acc rest = uc_tail-append k (w / 64) ((128 + w % 64) ∷ acc) rest

-- What the first byte of a sequence of `n` bytes allows: `q` is the bit behind the bits that are set, `x` is
-- what it has of the number.
pub record Lead (n q x : ℕ) : Type 0 where
  pub long : 2 ≤ n
  pub bits : lead_bits 8 ((256 - 2 ^ (8 - n)) + x) 0 0x80 ≡ (n, q)
  pub high : (((256 - 2 ^ (8 - n)) + x) / 128 == 0) ≡ false
  pub low : (if q == 0 then (256 - 2 ^ (8 - n)) + x else ((256 - 2 ^ (8 - n)) + x) % q) ≡ x

decode_rest-Lead :
    (n q x w z : ℕ) (p : Bytes)
    → (if q == 0 then z else z % q) ≡ x
    → 2 ≤ n
    → n ≤ length p + 1
    → decode_tail (n - 1) x p ≡ some w
    → decode_rest z p (n, q) ≡ (if x == 0 then none else some (w, n))
unfolding decode_rest
decode_rest-Lead n q x w z p e l m d =
    let fits : (ltb n 2 || ltb (length p + 1) n) ≡ false = ground arith in rw (e, fits, d) refl

pub sequence_lem :
    (n q w : ℕ) (rest : Bytes)
    → w < 2 ^ 32
    → Lead n q (uc_tail (n - 1) w []).0
    → utf_to_uc (uc_sequence n w ++ rest)
      ≡ (if (uc_tail (n - 1) w []).0 == 0 then none else some (w, n))
unfolding utf_to_uc uc_sequence decode_tail
sequence_lem n q w rest h l =
    let x = (uc_tail (n - 1) w []).0 in
    let bytes = (uc_tail (n - 1) w []).1 in
    let whole = uc_tail-append (n - 1) w [] rest in
    let tail_read : decode_tail (n - 1) x (bytes ++ rest) ≡ some w =
      ap₂ (decode_tail (n - 1)) (sym (ap (λ t. t.0) whole)) (sym (ap (λ t. t.1) whole))
      ∙ decode_tail-uc_tail (n - 1) 0 (n - 1) w rest h (omega arith) in
    rw (l.high, l.bits)
      (decode_rest-Lead n q x w _ (bytes ++ rest) l.low l.long
        (omega (arith, length-append bytes rest, length-uc_tail (n - 1) w [], l.long)) tail_read)

pub two_bytes-Lead : (x : ℕ) → x < 0x20 → Lead 2 0x20 x
unfolding holds_below leads lead_bits
two_bytes-Lead x h = record {
  long = omega arith;
  bits = read_bits 2 0x20 0x20 x refl h;
  high = ground arith;
  low = omega arith;
}

pub three_bytes-Lead : (x : ℕ) → x < 0x10 → Lead 3 0x10 x
unfolding holds_below leads lead_bits
three_bytes-Lead x h = record {
  long = omega arith;
  bits = read_bits 3 0x10 0x10 x refl h;
  high = ground arith;
  low = omega arith;
}

pub four_bytes-Lead : (x : ℕ) → x < 8 → Lead 4 8 x
unfolding holds_below leads lead_bits
four_bytes-Lead x h = record {
  long = omega arith;
  bits = read_bits 4 8 8 x refl h;
  high = ground arith;
  low = omega arith;
}

pub five_bytes-Lead : (x : ℕ) → x < 4 → Lead 5 4 x
unfolding holds_below leads lead_bits
five_bytes-Lead x h = record {
  long = omega arith;
  bits = read_bits 5 4 4 x refl h;
  high = ground arith;
  low = omega arith;
}

pub six_bytes-Lead : (x : ℕ) → x < 2 → Lead 6 2 x
unfolding holds_below leads lead_bits
six_bytes-Lead x h = record {
  long = omega arith;
  bits = read_bits 6 2 2 x refl h;
  high = ground arith;
  low = omega arith;
}
