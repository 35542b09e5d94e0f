-- ===== src/Dynamic/Contents.antt =====
-- The stream as a byte string with a position: what `Write` adds and what `Read` returns.
use image_proxy.Base.{
  ℕ, ◌+◌, ◌-◌, ◌%◌, ◌≤◌, ◌<◌, min, ◌≡◌, refl, sym, ap, ◌∙◌, true, false, some, List, [], ◌∷◌, ◌++◌,
  flatten, append-nil, arith, ◌==◌, lt→ltb, length, take, drop, length-take, length-drop, drop-take,
  take-take-min, Bytes, dec_lt,
}
use image_proxy.Dynamic.{
  storage_read, DynamicMemoryStream, read, write, size_mod, u32_mod, storage_write,
}
use image_proxy.Dynamic.Append.{storage_write_lem}
use image_proxy.Dynamic.State.{
  IsValid, contents, length-contents, storage_read-count, storage_read_lem,
}

-- The stream after `Write` stored a block vector.
abbrev extended : DynamicMemoryStream → List Bytes → ℕ → DynamicMemoryStream
extended s ds k = record {
  state = true;
  memory_storage = record { block_size = s.memory_storage.block_size; blocks = ds };
  p_size = s.p_size + k;
  p_offset = s.p_size + k;
}

write-some :
    (raw : ℕ) (s : DynamicMemoryStream) (chunk : Bytes) (ds : List Bytes)
    → 0 < length chunk
    → s.p_offset ≡ s.p_size
    → length chunk < u32_mod
    → s.p_size + length chunk < size_mod
    → storage_write raw s.memory_storage s.p_size chunk
      ≡ some (record { block_size = s.memory_storage.block_size; blocks = ds }, length chunk)
    → write raw s chunk ≡ some (extended s ds (length chunk), length chunk)
unfolding write
write-some raw s chunk ds c e u z w =
    let t : (s.p_size == s.p_offset) ≡ true = ground arith in
    let n : (length chunk == 0) ≡ false = ground arith in
    let r : length chunk % u32_mod ≡ length chunk = omega arith in
    let p : (length chunk + s.p_size) % size_mod ≡ s.p_size + length chunk = omega arith in
    rw (t, e, n, w, r, p)

-- `Write` at the end of a valid stream takes all the data, adds it behind the contents, leaves the
-- position at the end, and the stream valid.
pub write_lem :
    (raw : ℕ) (s : DynamicMemoryStream) (chunk : Bytes)
    → IsValid s
    → s.p_offset ≡ s.p_size
    → length chunk < u32_mod
    → s.p_size + length chunk < size_mod
    → (s' : DynamicMemoryStream) × (write raw s chunk ≡ some (s', length chunk))
      × IsValid s'
      × (contents s' ≡ contents s ++ chunk)
      × (s'.p_offset ≡ s'.p_size)
unfolding write contents
write_lem raw s [] v e u z =
    let t : (s.p_size == s.p_offset) ≡ true = ground arith in (s, rw t, v, sym (append-nil _), e)
write_lem raw s (x ∷ chunk) v e u z =
    let (ds, w, g) =
      storage_write_lem raw s.memory_storage s.p_size (x ∷ chunk) v.positive v.full v.covered
        v.tight (omega arith) in
    (
      extended s ds (length (x ∷ chunk)),
      write-some raw s (x ∷ chunk) ds (omega arith) e u z w,
      record {
        positive = v.positive;
        full = g.full;
        offset_in = omega arith;
        covered = g.covered;
        tight = g.tight;
        in_memory = z;
      },
      g.flat,
      refl,
    )

next_bytes :
    (s : DynamicMemoryStream) (size : ℕ)
    → IsValid s
    → take (min size (s.p_size - s.p_offset)) (drop s.p_offset (flatten s.memory_storage.blocks))
      ≡ take size (drop s.p_offset (contents s))
unfolding contents
next_bytes s size v =
    rw
      (drop-take s.p_offset s.p_size (s.p_size - s.p_offset) (flatten s.memory_storage.blocks)
        (omega (arith, v.offset_in)))
      (sym (take-take-min (s.p_size - s.p_offset) size _ _ refl))

read_fits :
    (s : DynamicMemoryStream) (size : ℕ) {b : Bytes}
    → IsValid s
    → b ≡ take size (drop s.p_offset (contents s))
    → length b ≤ s.p_size - s.p_offset
read_fits s size v e = omega (
  arith,
  ap length e,
  length-take size (drop s.p_offset (contents s)),
  length-drop s.p_offset (contents s),
  length-contents s v,
)

none_left :
    (s : DynamicMemoryStream) (size : ℕ)
    → IsValid s
    → min size (s.p_size - s.p_offset) ≡ 0
    → [] ≡ take size (drop s.p_offset (contents s))
none_left s size v h = rw (← next_bytes s size v) (rw h)

read-some :
    (s : DynamicMemoryStream) (size : ℕ) (b : Bytes)
    → IsValid s
    → s.p_size - s.p_offset < u32_mod
    → 0 < min size (s.p_size - s.p_offset)
    → b ≡ take size (drop s.p_offset (contents s))
    → read s size ≡ (record s { p_offset = s.p_offset + length b; state = true }, b)
unfolding read
read-some s size b v u k e =
    let q : (size_mod + s.p_size - s.p_offset) % u32_mod ≡ s.p_size - s.p_offset =
      omega (arith, v.offset_in, v.in_memory) in
    let bytes : (storage_read s.memory_storage s.p_offset (min size (s.p_size - s.p_offset))).1
        ≡ b =
      storage_read_lem s.memory_storage s.p_offset (min size (s.p_size - s.p_offset)) v.positive
        v.full
      ∙ next_bytes s size v
      ∙ sym e in
    let r : (storage_read s.memory_storage s.p_offset (min size (s.p_size - s.p_offset))).0
        ≡ length b =
      storage_read-count s.memory_storage s.p_offset (min size (s.p_size - s.p_offset)) v.positive
        v.full
      ∙ ap length bytes in
    let fit : length b ≤ s.p_size - s.p_offset = omega (arith, read_fits s size v e) in
    let o : (s.p_offset + length b % u32_mod) % size_mod ≡ s.p_offset + length b =
      omega (arith, v.offset_in, v.in_memory) in
    rw (q, lt→ltb _ _ k, bytes, r, o)

read-none :
    (s : DynamicMemoryStream) (size : ℕ)
    → IsValid s
    → s.p_size - s.p_offset < u32_mod
    → min size (s.p_size - s.p_offset) ≡ 0
    → read s size ≡ (s, [])
unfolding read
read-none s size v u k =
    let q : (size_mod + s.p_size - s.p_offset) % u32_mod ≡ s.p_size - s.p_offset =
      omega (arith, v.offset_in, v.in_memory) in
    rw (q, k)

-- `Read` in a valid stream returns the next bytes of the contents, as many as were asked for if
-- there are so many, moves the position behind them, and changes nothing else.
pub read_lem :
    (s : DynamicMemoryStream) (size : ℕ)
    → IsValid s
    → s.p_size - s.p_offset < u32_mod
    → let (s', bytes) = read s size in
      (bytes ≡ take size (drop s.p_offset (contents s)))
      × (s'.p_offset ≡ s.p_offset + length bytes)
      × (contents s' ≡ contents s)
      × IsValid s'
unfolding contents
read_lem s size v u = elim (dec_lt 0 (min size (s.p_size - s.p_offset))) [
  | yes p ↦ rw (read-some s size _ v u p refl) (
    refl,
    refl,
    refl,
    record {
      positive = v.positive;
      full = v.full;
      offset_in = omega (arith, read_fits s size v refl, v.offset_in);
      covered = v.covered;
      tight = v.tight;
      in_memory = v.in_memory;
    },
  )
  | no p ↦
      rw (read-none s size v u (omega arith))
        (none_left s size v (omega arith), omega arith, refl, v)
]
