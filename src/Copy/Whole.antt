-- ===== src/Copy/Whole.antt =====
-- A copy of a stream that reads on, to one that takes all it gets.
use image_proxy.Base.{
  ℕ, zero, suc, ◌+◌, ◌-◌, ◌%◌, ◌^◌, ◌<◌, min, ◌≡◌, refl, sym, ap, ap₂, ◌∙◌, true, false, some, [],
  ◌++◌, append-nil, append_assoc, arith, ◌==◌, length, take, drop, length-append, length-take,
  length-drop, take-append-drop, take-add, drop-drop, Bytes, dec_lt,
}
use image_proxy.Copy.{copy_buffer, Copied, copy_loop, copy_to}
use image_proxy.Copy.Streams.{
  Reader, Writer, take-length-take, drop-length-take, no_bytes, stops, goes_on,
}

module _ {ℓ κ} {S : Type ℓ} {T : Type κ} {input_read : S → ℕ → S × Bytes}
    {output_write : T → Bytes → T × ℕ} (reader : Reader S input_read)
    (writer : Writer T output_write) where
  -- What `CopyTo` owes its caller.
  pub record CopiedAll (size : ℕ) (s : S) (t : T) (total : ℕ) (c : Copied S T) : Type 0 where
    pub output_text :
        writer.written_text c.output ≡ writer.written_text t ++ take size (reader.rest s)
    pub input_rest : reader.rest c.input ≡ drop size (reader.rest s)
    pub result : c.total_written ≡ (total + length (take size (reader.rest s))) % 2 ^ 32

  -- What one read of the loop leaves to copy.
  record Chunk (s s1 : S) (b : Bytes) (size : ℕ) : Type 0 where
    front : b ≡ take (length b) (reader.rest s)
    back : reader.rest s1 ≡ drop (length b) (reader.rest s)
    count : length b ≡ min (min size copy_buffer) (length (reader.rest s))

  read_one :
      (s : S) (size : ℕ) → let (s1, b) = input_read s (min size copy_buffer) in Chunk s s1 b size
  read_one s size =
      let m = min size copy_buffer in
      let b = (input_read s (min size copy_buffer)).1 in
      let e = reader.read_next s (min size copy_buffer) in
      record {
        front =
            e
            ∙ sym (take-length-take m (reader.rest s))
            ∙ ap (λ x. take (length x) (reader.rest s)) (sym e);
        back =
            reader.read_rest s m
            ∙ sym (drop-length-take m (reader.rest s))
            ∙ ap (λ x. drop (length x) (reader.rest s)) (sym e);
        count = ap length e ∙ length-take m (reader.rest s);
      }

  end-CopiedAll :
      (s s1 : S) (t : T) (b : Bytes) (size total : ℕ)
      → Chunk s s1 b size
      → length b ≡ 0
      → total < 2 ^ 32
      → CopiedAll size s t total (record { input = s1; output = t; total_written = total })
  end-CopiedAll s s1 t b size total c z h =
      let nothing : take size (reader.rest s) ≡ [] =
        no_bytes _ (omega (arith, length-take size (reader.rest s), c.count, z)) in
      record {
        output_text = sym (append-nil _) ∙ ap (λ x. writer.written_text t ++ x) (sym nothing);
        input_rest =
            c.back
            ∙ ap (λ k. drop k (reader.rest s)) z
            ∙ sym (take-append-drop size (reader.rest s))
            ∙ ap (λ x. x ++ drop size (reader.rest s)) nothing;
        result = omega (arith, ap length nothing, h);
      }

  last-CopiedAll :
      (s s1 : S) (t t1 : T) (b : Bytes) (size total : ℕ)
      → Chunk s s1 b size
      → length b ≡ size
      → writer.written_text t1 ≡ writer.written_text t ++ b
      → CopiedAll size s t total
          (record { input = s1; output = t1; total_written = (total + length b) % 2 ^ 32 })
  last-CopiedAll s s1 t t1 b size total c z w =
      let same : b ≡ take size (reader.rest s) = c.front ∙ ap (λ k. take k (reader.rest s)) z in
      record {
        output_text = w ∙ ap (λ x. writer.written_text t ++ x) same;
        input_rest = c.back ∙ ap (λ k. drop k (reader.rest s)) z;
        result = ap (λ x. (total + length x) % 2 ^ 32) same;
      }

  more-CopiedAll :
      (s s1 : S) (t t1 : T) (b : Bytes) (size total : ℕ) (d : Copied S T)
      → Chunk s s1 b size
      → writer.written_text t1 ≡ writer.written_text t ++ b
      → CopiedAll (size - length b) s1 t1 ((total + length b) % 2 ^ 32) d
      → CopiedAll size s t total d
  more-CopiedAll s s1 t t1 b size total d c w r =
      let fits : size ≡ length b + (size - length b) = omega (arith, c.count) in
      let parted : take size (reader.rest s) ≡ b ++ take (size - length b) (reader.rest s1) =
        take-add size (length b) (size - length b) (reader.rest s) fits
        ∙ ap₂ (λ x y. x ++ take (size - length b) y) (sym c.front) (sym c.back) in
      record {
        output_text =
            r.output_text
            ∙ ap (λ x. x ++ take (size - length b) (reader.rest s1)) w
            ∙ append_assoc (writer.written_text t) b (take (size - length b) (reader.rest s1))
            ∙ ap (λ x. writer.written_text t ++ x) (sym parted);
        input_rest =
            r.input_rest
            ∙ ap (drop (size - length b)) c.back
            ∙ drop-drop size (length b) (size - length b) (reader.rest s) fits;
        result = omega (
          arith,
          r.result,
          ap length parted,
          length-append b (take (size - length b) (reader.rest s1)),
        );
      }

  loop_end :
      (fuel : ℕ) (s : S) (t : T) (size total : ℕ)
      → (length (input_read s (min size copy_buffer)).1 == 0) ≡ true
      → copy_loop input_read output_write (suc fuel) s t size total
        ≡ some (record {
          input = (input_read s (min size copy_buffer)).0;
          output = t;
          total_written = total;
        })
  unfolding copy_loop
  loop_end fuel s t size total z = rw (copy_loop, z) refl

  loop_last :
      (fuel : ℕ) (s : S) (t : T) (size total : ℕ)
      → let (s1, b) = input_read s (min size copy_buffer) in
        (length b == 0) ≡ false
        → ¬ (length b < size)
        → copy_loop input_read output_write (suc fuel) s t size total
          ≡ some (record {
            input = s1;
            output = (output_write t b).0;
            total_written = (total + length b) % 2 ^ 32;
          })
  unfolding copy_loop
  loop_last fuel s t size total filled last =
      let b = (input_read s (min size copy_buffer)).1 in
      rw (copy_loop, writer.write_count t b, filled, stops b size last) refl

  loop_more :
      (fuel : ℕ) (s : S) (t : T) (size total : ℕ)
      → let (s1, b) = input_read s (min size copy_buffer) in
        (length b == 0) ≡ false
        → length b < size
        → copy_loop input_read output_write (suc fuel) s t size total
          ≡ copy_loop input_read output_write fuel s1
              (output_write t b).0
              (size - length b)
              ((total + length b) % 2 ^ 32)
  unfolding copy_loop
  loop_more fuel s t size total filled more =
      let b = (input_read s (min size copy_buffer)).1 in
      rw (writer.write_count t b, filled, goes_on b size more) refl

  pub copy_loop-CopiedAll :
      (fuel : ℕ) (s : S) (t : T) (size total : ℕ)
      → total < 2 ^ 32
      → length (reader.rest s) < fuel
      → (c : Copied S T) × (copy_loop input_read output_write fuel s t size total ≡ some c)
        × CopiedAll size s t total c
  copy_loop-CopiedAll zero s t size total h f = absurd (omega arith)
  copy_loop-CopiedAll (suc fuel) s t size total h f =
      let (s1, b) = input_read s (min size copy_buffer) in
      let t1 = (output_write t b).0 in
      let c = read_one s size in
      let w = writer.write_text t b in
      elim (dec_lt 0 (length b)) [
        | no none_read ↦ (
          _,
          loop_end fuel s t size total (ground arith),
          end-CopiedAll s s1 t b size total c (omega arith) h,
        )
        | yes some_read ↦
            let filled : (length b == 0) ≡ false = ground arith in
            elim (dec_lt (length b) size) [
              | no last ↦ (
                _,
                loop_last fuel s t size total filled last,
                last-CopiedAll s s1 t t1 b size total c (omega (arith, c.count)) w,
              )
              | yes more ↦
                  let (d, e, r) =
                    copy_loop-CopiedAll fuel s1 t1 (size - length b) ((total + length b) % 2 ^ 32)
                      (omega arith)
                      (omega (
                        arith,
                        f,
                        ap length c.back,
                        length-drop (length b) (reader.rest s),
                        c.count,
                      )) in
                  (
                    d,
                    loop_more fuel s t size total filled more ∙ e,
                    more-CopiedAll s s1 t t1 b size total d c w r,
                  )
            ]
      ]

  -- From an input that gives the next bytes of its text on each `Read`, as many as were asked for if there
  -- are so many, to an output that takes all it gets, `CopyTo` ends, with fuel for one round more than there
  -- are bytes: the output gets the next `size` bytes, or all there are, the input is behind them, and
  -- the result is their number, as 32 bits have it.
  pub copy_to-CopiedAll :
      (fuel : ℕ) (s : S) (t : T) (size : ℕ)
      → length (reader.rest s) < fuel
      → (c : Copied S T) × (copy_to input_read output_write fuel s t size ≡ some c)
        × CopiedAll size s t 0 c
  unfolding copy_to
  copy_to-CopiedAll fuel s t size f = copy_loop-CopiedAll fuel s t size 0 (omega arith) f
