-- ===== src/Jpeg/Output/Delivered.antt =====
-- What reaches the stream behind the compressor.
use image_proxy.Base.{
  ℕ, zero, suc, ◌+◌, ◌-◌, ◌<◌, ◌≡◌, refl, sym, ap, subst, ◌∙◌, inl, inr, [], ◌∷◌, ◌++◌, append-nil,
  append_assoc, arith, ltb, Bool-cases, length, set, take, length-set, take-all, Bytes,
}
use image_proxy.Copy.Streams.{Writer}
use image_proxy.Jpeg.Output.{
  buffer_length, OutputManager, init_destination, empty_output_buffer, term_destination,
}

-- A byte in its place, as libjpeg puts it.
unfoldable pub put {ℓ} : {T : Type ℓ} → OutputManager T → ℕ → OutputManager T
put m c = record m {
  buffer = set m.buffer m.next_output_byte c;
  next_output_byte = m.next_output_byte + 1;
  free_in_buffer = m.free_in_buffer - 1;
}

-- What libjpeg does with a destination: it puts bytes at the next place while there is room behind, and calls
-- `empty_output_buffer` whenever the buffer has filled up.
pub data Emits {ℓ} {T : Type ℓ} (output_write : T → Bytes → T × ℕ)
    : OutputManager T → Bytes → OutputManager T → Type ℓ where
  nothing : {m : OutputManager T} → Emits output_write m [] m
  byte :
      {m m1 : OutputManager T} {c : ℕ} {cs : Bytes}
      → 1 < m.free_in_buffer
      → Emits output_write (put m c) cs m1
      → Emits output_write m (c ∷ cs) m1
  filled :
      {m m1 : OutputManager T} {c : ℕ} {cs : Bytes}
      → m.free_in_buffer ≡ 1
      → Emits output_write (empty_output_buffer output_write (put m c)) cs m1
      → Emits output_write m (c ∷ cs) m1

take-set :
    (xs : Bytes) (n m c : ℕ)
    → m ≡ n + 1
    → n < length xs
    → take m (set xs n c) ≡ take n xs ++ (c ∷ [])
take-set [] n m c e h = absurd (omega arith)
take-set (x ∷ xs) n zero c e h = absurd (omega arith)
take-set (x ∷ xs) zero (suc m) c e h = let z : m ≡ 0 = omega arith in ap (λ k. c ∷ take k xs) z
take-set (x ∷ xs) (suc n) (suc m) c e h = ap (◌∷◌ x) (take-set xs n m c (omega arith) (omega arith))

module _ {ℓ} {T : Type ℓ} {output_write : T → Bytes → T × ℕ} (writer : Writer T output_write) where
  -- The text so far is in the stream, up to what is in the buffer.
  record Holds (m : OutputManager T) (text : Bytes) : Type 0 where
    whole : length m.buffer ≡ buffer_length
    split : m.next_output_byte + m.free_in_buffer ≡ buffer_length
    some_room : 0 < m.free_in_buffer
    so_far : writer.written_text m.out ++ take m.next_output_byte m.buffer ≡ text

  put-text :
      (m : OutputManager T) (text : Bytes) (c : ℕ)
      → Holds m text
      → writer.written_text m.out
          ++ take (m.next_output_byte + 1) (set m.buffer m.next_output_byte c)
        ≡ text ++ (c ∷ [])
  put-text m text c h =
      ap (λ x. writer.written_text m.out ++ x)
        (take-set m.buffer m.next_output_byte _ c refl
          (omega (arith, h.whole, h.split, h.some_room)))
      ∙ sym (append_assoc (writer.written_text m.out) (take m.next_output_byte m.buffer) (c ∷ []))
      ∙ ap (λ x. x ++ (c ∷ [])) h.so_far

  put-Holds :
      (m : OutputManager T) (text : Bytes) (c : ℕ)
      → Holds m text
      → 1 < m.free_in_buffer
      → Holds (put m c) (text ++ (c ∷ []))
  unfolding put
  put-Holds m text c h r = record {
    whole = length-set m.buffer m.next_output_byte c ∙ h.whole;
    split = omega (arith, h.split, r);
    some_room = omega (arith, r);
    so_far = put-text m text c h;
  }

  filled-Holds :
      (m : OutputManager T) (text : Bytes) (c : ℕ)
      → Holds m text
      → m.free_in_buffer ≡ 1
      → Holds (empty_output_buffer output_write (put m c)) (text ++ (c ∷ []))
  unfolding put empty_output_buffer
  filled-Holds m text c h r =
      let buf = set m.buffer m.next_output_byte c in
      let size : length buf ≡ buffer_length = length-set m.buffer m.next_output_byte c ∙ h.whole in
      let full : take (m.next_output_byte + 1) buf ≡ buf =
        take-all (m.next_output_byte + 1) buf (omega (arith, size, h.split, r)) in
      record {
        whole = size;
        split = omega arith;
        some_room = omega arith;
        so_far =
            append-nil _
            ∙ writer.write_text m.out buf
            ∙ ap (λ x. writer.written_text m.out ++ x) (sym full)
            ∙ put-text m text c h;
      }

  Emits-Holds :
      {m1 : OutputManager T} (cs text : Bytes) (m : OutputManager T)
      → Holds m text
      → Emits output_write m cs m1
      → Holds m1 (text ++ cs)
  Emits-Holds {m1} [] text m h nothing = subst (Holds m1) (sym (append-nil text)) h
  Emits-Holds {m1} (c ∷ cs) text m h (byte r e) =
      subst (Holds m1) (append_assoc text (c ∷ []) cs)
        (Emits-Holds cs (text ++ (c ∷ [])) (put m c) (put-Holds m text c h r) e)
  Emits-Holds {m1} (c ∷ cs) text m h (filled r e) =
      subst (Holds m1) (append_assoc text (c ∷ []) cs) (
        Emits-Holds cs (text ++ (c ∷ [])) (empty_output_buffer output_write (put m c))
          (filled-Holds m text c h r) e)

  -- Between `init_destination` and `term_destination`, on a stream that takes all it gets, the stream gets
  -- exactly the bytes that the compressor emits, in their order.
  pub term_destination-Emits :
      (m m1 : OutputManager T) (cs : Bytes)
      → length m.buffer ≡ buffer_length
      → Emits output_write (init_destination m) cs m1
      → writer.written_text (term_destination output_write m1).out ≡ writer.written_text m.out ++ cs
  unfolding init_destination term_destination
  term_destination-Emits m m1 cs l e =
      let start : Holds (init_destination m) (writer.written_text m.out) = record {
        whole = l;
        split = omega arith;
        some_room = omega arith;
        so_far = append-nil _;
      } in
      let h = Emits-Holds cs (writer.written_text m.out) (init_destination m) start e in
      let used : buffer_length - m1.free_in_buffer ≡ m1.next_output_byte = omega (arith, h.split) in
      elim (Bool-cases (ltb 0 (buffer_length - m1.free_in_buffer))) [
        | inl left ↦ rw left (
            writer.write_text m1.out (take (buffer_length - m1.free_in_buffer) m1.buffer)
            ∙ ap (λ n. writer.written_text m1.out ++ take n m1.buffer) used
            ∙ h.so_far)
        | inr none_left ↦
            let zero_used : m1.next_output_byte ≡ 0 = ground (arith, used, none_left) in
            rw none_left (
              sym (append-nil _)
              ∙ ap (λ n. writer.written_text m1.out ++ take n m1.buffer) (sym zero_used)
              ∙ h.so_far)
      ]
