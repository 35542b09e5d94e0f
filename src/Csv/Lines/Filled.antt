-- ===== src/Csv/Lines/Filled.antt =====
-- The buffer of the reader: what it holds, with what the input still has, is the rest of the text.
use image_proxy.Base.{
  ℕ, ◌+◌, ◌-◌, ◌*◌, ◌/◌, ◌%◌, ◌^◌, ◌≤◌, ◌<◌, ◌≡◌, refl, sym, ap, ap₂, ◌∙◌, ◌⊎◌, inl, inr, not, ◌&&◌,
  Option, none, some, [], ◌++◌, append-nil, append_assoc, arith, ◌==◌, if◌then◌else◌, ==→eq,
  Bool-cases, length, take, drop, length-append, length-take, take-append-drop, take-all, Bytes,
}
use native.Mathlib.Nat.{mod-lt}
use image_proxy.Copy.Streams.{Reader}
use image_proxy.Csv.Lines.{fill_buf, open_reader, CsvReader, grown, buffer_size, refill}

-- A buffer that holds two bytes or more grows, to a size below 2^32.
pub grown_lem :
    (n size : ℕ)
    → 2 ≤ n
    → n ≤ 2 ^ 30
    → 2 ≤ size
    → size ≤ 2 ^ 30
    → (size < grown n size) × (grown n size < 2 ^ 32)
unfolding grown
grown_lem n size p q r t =
    let x = ((size * 3) % 2 ^ 64 / 2 + n - 1) % 2 ^ 64 in
    let small : x % n < n = mod-lt x (omega (arith, p)) in (omega arith, omega arith)

module _ {ℓ} {S : Type ℓ} {input_read : S → ℕ → S × Bytes} (n : ℕ)
    (stream : Reader S input_read) where
  -- What the input still has.
  unfoldable pub unread : Option S → Bytes
  unread none = []
  unread (some s) = stream.rest s

  -- The text is what the buffer and the input still have, and a buffer with an input is filled up to its end.
  pub record Filled (text : Bytes) (r : CsvReader S) : Type ℓ where
    pub has : r.left ++ unread r.input ≡ text
    pub enough : 2 ≤ r.size
    pub small : r.size < 2 ^ 32
    pub full : (s : S) → r.input ≡ some s → r.head + length r.left ≡ r.size

  buffer_size_lem :
      (text : Bytes) (r : CsvReader S) (s : S)
      → 2 ≤ n
      → n ≤ 2 ^ 30
      → length text ≤ 2 ^ 30
      → Filled text r
      → r.input ≡ some s
      → (length r.left < buffer_size n input_read r)
        × (buffer_size n input_read r < 2 ^ 32)
        × (2 ≤ buffer_size n input_read r)
  unfolding buffer_size
  buffer_size_lem text r s p q t f e =
      let size = f.full s e in
      let held = length-append r.left (unread r.input) in
      let total = ap length f.has in
      elim (Bool-cases (not (length r.left == 0) && (r.head == 0))) [
        | inl grows ↦
            let start : r.head ≡ 0 = ground (arith, grows) in
            let (more, below) =
              grown_lem n r.size p q f.enough (omega (arith, size, start, held, total, t)) in
            rw grows (omega arith, below, omega (arith, more, f.enough))
        | inr stays ↦
            let room : length r.left < r.size = ground (arith, stays, size, f.enough) in
            rw stays (room, f.small, f.enough)
      ]

  -- What a call of `FillBuf` does: it appends what it reads, and where the input is left, something was read.
  pub data Refilled (text : Bytes) (r : CsvReader S) : CsvReader S → Type ℓ where
    refilled :
        (r1 : CsvReader S) (bytes : Bytes)
        → Filled text r1
        → r1.left ≡ r.left ++ bytes
        → r1.skip ≡ length r.left
        → r1.quote_chars ≡ r.quote_chars
        → (r1.input ≡ none) ⊎ (length (unread r1.input) < length (unread r.input))
        → Refilled text r r1

  -- The same for any size of the buffer and any bytes that the input gives.
  refilled_lem :
      (text : Bytes) (r : CsvReader S) (s s1 : S) (size : ℕ) (bytes : Bytes)
      → length r.left < size
      → size < 2 ^ 32
      → 2 ≤ size
      → r.left ++ stream.rest s ≡ text
      → r.input ≡ some s
      → bytes ≡ take (size - length r.left) (stream.rest s)
      → stream.rest s1 ≡ drop (size - length r.left) (stream.rest s)
      → Refilled text r (record {
        input = if length bytes == size - length r.left then some s1 else none;
        size = size;
        head = 0;
        left = r.left ++ bytes;
        skip = length r.left;
        quote_chars = r.quote_chars;
      })
  unfolding unread
  refilled_lem text r s s1 size bytes room below enough has e next rest =
      let k = size - length r.left in
      let c = stream.rest s in
      let there : unread r.input ≡ c = ap unread e in
      let whole : bytes ++ stream.rest s1 ≡ c =
        ap₂ (λ x y. x ++ y) next rest ∙ take-append-drop k c in
      let sizes = ap length whole in
      let parts = length-append bytes (stream.rest s1) in
      let total = length-append r.left bytes in
      elim (Bool-cases (length bytes == k)) [
        | inl all ↦
            let read : length bytes ≡ k = ==→eq (length bytes) k all in
            let less : length (stream.rest s1) < length (unread r.input) =
              omega (arith, read, sizes, parts, room, ap length there) in
            rw all (
              refilled _ bytes
                (record {
                  has =
                      append_assoc r.left bytes (stream.rest s1)
                      ∙ ap (λ t. r.left ++ t) whole
                      ∙ has;
                  enough = enough;
                  small = below;
                  full = λ s2 x. omega (arith, read, total, room);
                })
                refl refl refl (inr less))
        | inr short ↦
            let taken = ap length next ∙ length-take k c in
            let few : length c < k = ground (arith, short, taken) in
            let gone : bytes ≡ c = next ∙ take-all k c (omega (arith, few)) in
            rw short (
              refilled _ bytes
                (record {
                  has = append-nil (r.left ++ bytes) ∙ ap (λ t. r.left ++ t) gone ∙ has;
                  enough = enough;
                  small = below;
                  full = λ s2 x. absurd (cc x);
                })
                refl refl refl (inl refl))
      ]

  pub refill-Refilled :
      (text : Bytes) (r : CsvReader S) (s : S)
      → 2 ≤ n
      → n ≤ 2 ^ 30
      → length text ≤ 2 ^ 30
      → Filled text r
      → r.input ≡ some s
      → Refilled text r (refill n input_read r s)
  unfolding refill unread
  refill-Refilled text r s p q t f e =
      let (room, below, enough) = buffer_size_lem text r s p q t f e in
      let size = buffer_size n input_read r in
      let m = (size - length r.left) % 2 ^ 32 in
      let same : m ≡ size - length r.left = omega arith in
      let (s1, bytes) = input_read s m in
      refilled_lem text r s s1 size bytes room below enough
        (sym (ap (λ i. r.left ++ unread i) e) ∙ f.has) e
        (stream.read_next s m ∙ ap (λ k. take k (stream.rest s)) same)
        (stream.read_rest s m ∙ ap (λ k. drop k (stream.rest s)) same)

  pub Refilled-Filled : (text : Bytes) (r r1 : CsvReader S) → Refilled text r r1 → Filled text r1
  Refilled-Filled text r r1 (refilled _ bytes f l k q less) = f

  -- The buffer of a new reader.
  pub open_reader-Filled :
      (s : S) → 2 ≤ n → n ≤ 2 ^ 30 → Filled (stream.rest s) (open_reader n input_read s)
  unfolding open_reader fill_buf refill buffer_size
  open_reader-Filled s p q =
      let r : CsvReader S = record {
        input = some s;
        size = n;
        head = 0;
        left = [];
        skip = 0;
        quote_chars = 0;
      } in
      let m = (n - 0) % 2 ^ 32 in
      let same : m ≡ n - 0 = omega arith in
      let (s1, bytes) = input_read s m in
      Refilled-Filled (stream.rest s) r _ (
        refilled_lem (stream.rest s) r s s1 n bytes (omega (arith, p)) (omega (arith, q)) p refl
          refl (stream.read_next s m ∙ ap (λ k. take k (stream.rest s)) same)
          (stream.read_rest s m ∙ ap (λ k. drop k (stream.rest s)) same))
