-- ===== src/Chunk/Frame.antt =====
-- A chunk in the connection's buffer.
use image_proxy.Base.{
  ℕ, ◌+◌, ◌-◌, ◌≤◌, ◌≡◌, sym, ap, ap₂, ◌∙◌, some, ◌++◌, append-nil, append_assoc, arith, length,
  take, drop, length-append, length-take, length-drop, take-append-drop, take-append_add,
  drop-append_add, Bytes,
}
use image_proxy.Dynamic
use image_proxy.Dynamic.{
  overwrite, size_mod, u32_mod, block_at, read_blocks, storage_read, write_blocks, append_blocks,
  grow, write_rest, write_from, storage_write, init, read, write, seek_target, seek_to, seek, tell,
  stream_size, copy_blocks, copy_to, MemoryStorage, DynamicMemoryStream,
}
use image_proxy.Response.{crlf, buffer_size}
use image_proxy.Chunk.{size_line, build_chunk, chunk_offset, max_chunk_size}
use image_proxy.Chunk.Codec.{first_size, first_size-size_line, size_line_lem, chunk_text}

overwrite_mid :
    (u v w c : Bytes) (p : ℕ)
    → p ≡ length u
    → length c ≡ length v
    → overwrite (u ++ (v ++ w)) p c ≡ u ++ (c ++ w)
unfolding overwrite
overwrite_mid u v w c p e h =
    ap₂ (λ x y. x ++ (c ++ y)) (take-append_add p 0 u (v ++ w) (omega arith) ∙ append-nil u)
      (drop-append_add (p + length c) (length c) u (v ++ w) (omega arith)
        ∙ drop-append_add (length c) 0 v w (omega arith))

-- The same where the bytes in front are in two parts.
overwrite_behind :
    (u t v w c : Bytes) (p : ℕ)
    → p ≡ length u + length t
    → length c ≡ length v
    → overwrite (u ++ (t ++ (v ++ w))) p c ≡ u ++ (t ++ (c ++ w))
overwrite_behind u t v w c p e h =
    ap (λ x. overwrite x p c) (sym (append_assoc u t (v ++ w)))
    ∙ overwrite_mid (u ++ t) v w c p (omega (arith, length-append u t)) h
    ∙ append_assoc u t (c ++ w)

-- The buffer's parts: what is in front of the chunk, the size line's place, the data's, the line
-- end's, the rest.
record Parts (buf : Bytes) (n k : ℕ) : Type 0 where
  u : Bytes
  t : Bytes
  b : Bytes
  e : Bytes
  w : Bytes
  whole : buf ≡ u ++ (t ++ (b ++ (e ++ w)))
  length_u : length u ≡ chunk_offset - n
  length_t : length t ≡ n
  length_b : length b ≡ k
  length_e : length e ≡ 2

parts :
    (buf : Bytes) (n k : ℕ) → n ≤ chunk_offset → chunk_offset + k + 2 ≤ length buf → Parts buf n k
parts buf n k h l =
    let r1 = drop (chunk_offset - n) buf in
    let r2 = drop n r1 in
    let r3 = drop k r2 in
    let l1 = length-drop (chunk_offset - n) buf in
    let l2 = length-drop n r1 in
    let l3 = length-drop k r2 in
    record {
      u = take (chunk_offset - n) buf;
      t = take n r1;
      b = take k r2;
      e = take 2 r3;
      w = drop 2 r3;
      whole =
          sym (take-append-drop (chunk_offset - n) buf)
          ∙ ap (λ x. take (chunk_offset - n) buf ++ x)
              (sym (take-append-drop n r1)
                ∙ ap (λ x. take n r1 ++ x)
                    (sym (take-append-drop k r2)
                      ∙ ap (λ x. take k r2 ++ x) (sym (take-append-drop 2 r3))));
      length_u = omega (arith, length-take (chunk_offset - n) buf);
      length_t = omega (arith, length-take n r1, l1);
      length_b = omega (arith, length-take k r2, l1, l2);
      length_e = omega (arith, length-take 2 r3, l1, l2, l3);
    }

length-parts :
    (u t b e w : Bytes)
    → length (u ++ (t ++ (b ++ (e ++ w)))) ≡ length u + length t + length b + length e + length w
length-parts u t b e w = omega (
  arith,
  length-append u (t ++ (b ++ (e ++ w))),
  length-append t (b ++ (e ++ w)),
  length-append b (e ++ w),
  length-append e w,
)

-- The three copies into the buffer.
filled : Bytes → Bytes → Bytes → Bytes
unfolding overwrite
filled buf data_bytes line =
    overwrite (overwrite (overwrite buf chunk_offset data_bytes) (chunk_offset - length line) line)
      (chunk_offset + length data_bytes) crlf

filled_lem :
    (buf data_bytes line : Bytes) (p : Parts buf (length line) (length data_bytes))
    → length line ≤ chunk_offset
    → filled buf data_bytes line ≡ p.u ++ (line ++ (data_bytes ++ (crlf ++ p.w)))
unfolding filled
filled_lem buf data_bytes line p h =
    let first : overwrite buf chunk_offset data_bytes
        ≡ p.u ++ (p.t ++ (data_bytes ++ (p.e ++ p.w))) =
      ap (λ x. overwrite x chunk_offset data_bytes) p.whole
      ∙ overwrite_behind p.u p.t p.b (p.e ++ p.w) data_bytes chunk_offset
          (omega (arith, p.length_u, p.length_t)) (sym p.length_b) in
    let second =
      overwrite_mid p.u p.t (data_bytes ++ (p.e ++ p.w)) line (chunk_offset - length line)
        (sym p.length_u) (sym p.length_t) in
    let third =
      overwrite_behind p.u (line ++ data_bytes) p.e p.w crlf (chunk_offset + length data_bytes)
        (omega (arith, p.length_u, length-append line data_bytes)) (sym p.length_e) in
    ap
      (λ x.
        overwrite (overwrite x (chunk_offset - length line) line) (chunk_offset + length data_bytes)
          crlf)
      first
    ∙ ap (λ x. overwrite x (chunk_offset + length data_bytes) crlf) second
    ∙ ap (λ x. overwrite (p.u ++ x) (chunk_offset + length data_bytes) crlf)
        (sym (append_assoc line data_bytes (p.e ++ p.w)))
    ∙ third
    ∙ ap (λ x. p.u ++ x) (append_assoc line data_bytes (crlf ++ p.w))

-- What `BuildChunk` sends, with the code's own line of the size.
pub build_chunk-chunk_text :
    (buf data_bytes : Bytes)
    → length buf ≡ buffer_size
    → length data_bytes ≤ max_chunk_size
    → let (buf1, sent) =
        build_chunk (Dynamic.overwrite buf chunk_offset data_bytes) (length data_bytes) in
      (sent ≡ chunk_text data_bytes) × (length buf1 ≡ buffer_size) × (length sent ≤ buffer_size)
unfolding build_chunk filled
build_chunk-chunk_text buf data_bytes l h =
    let line = size_line (length data_bytes) in
    let n = length line in
    let k = length data_bytes in
    let short = (size_line_lem (length data_bytes) (omega arith)).1 in
    let p = parts buf (length line) (length data_bytes) (omega (arith, short)) (omega arith) in
    let e = filled_lem buf data_bytes line p (omega (arith, short)) in
    let sent : take (k + n + 2) (drop (chunk_offset - n) (filled buf data_bytes line))
        ≡ chunk_text data_bytes =
      ap (λ x. take (k + n + 2) (drop (chunk_offset - n) x)) e
      ∙ ap (take (k + n + 2)) (
          drop-append_add (chunk_offset - n) 0 p.u (line ++ (data_bytes ++ (crlf ++ p.w)))
            (omega (arith, p.length_u)))
      ∙ take-append_add (k + n + 2) (k + 2) line (data_bytes ++ (crlf ++ p.w)) (omega arith)
      ∙ ap (λ x. line ++ x) (take-append_add (k + 2) 2 data_bytes (crlf ++ p.w) (omega arith)) in
    let kept : length (filled buf data_bytes line) ≡ buffer_size =
      ap length e
      ∙ omega (
        arith,
        l,
        ap length p.whole,
        length-parts p.u p.t p.b p.e p.w,
        length-parts p.u line data_bytes crlf p.w,
        p.length_t,
        p.length_b,
        p.length_e,
      ) in
    (
      sent,
      kept,
      rw sent (
          omega
            (arith, short, length-append line (data_bytes ++ crlf), length-append data_bytes crlf)),
    )

-- For data of at most `MAX_CHUNK_SIZE` bytes at `CHUNK_OFFSET` in a buffer of 0x1000 bytes, what `BuildChunk`
-- sends is, to a reader of hexadecimal digits up to a line's end, the length of the data with the data and a
-- line's end behind it. It stays within the buffer.
pub build_chunk-first_size :
    (buf data_bytes : Bytes)
    → length buf ≡ buffer_size
    → length data_bytes ≤ max_chunk_size
    → let (buf1, sent) =
        build_chunk (Dynamic.overwrite buf chunk_offset data_bytes) (length data_bytes) in
      (first_size sent ≡ some (length data_bytes, data_bytes ++ crlf))
      × (length buf1 ≡ buffer_size)
      × (length sent ≤ buffer_size)
build_chunk-first_size buf data_bytes l h =
    let (sent, whole, short) = build_chunk-chunk_text buf data_bytes l h in
    (
      ap first_size sent
          ∙ first_size-size_line (length data_bytes) (data_bytes ++ crlf) (omega (arith, h)),
      whole,
      short,
    )
