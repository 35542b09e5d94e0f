-- ===== src/Dynamic/Append.antt =====
-- `MemoryStorage::Write` at the end of the data, as `DynamicMemoryStream::Write` calls it.
use image_proxy.Base.{
  ℕ, ◌+◌, ◌-◌, ◌*◌, ◌/◌, ◌%◌, ◌≤◌, ◌<◌, min, ◌≡◌, sym, ap, subst, ◌∙◌, ◌⊎◌, inl, inr, false, some,
  List, ◌++◌, flatten, append-nil, append_assoc, arith, ◌==◌, lt→ltb, length, take, drop,
  length-append, length-take, length-drop, take-append-drop, take-all, drop-all, take-append_le,
  take-append_add, drop-append_add, Bytes, dec_lt, dec_le,
}
use native.Mathlib.Nat.{mul-sub, mul_comm}
use image_proxy.Dynamic.{
  MemoryStorage, block_at, write_blocks, append_blocks, write_from, write_rest, storage_write,
}
use image_proxy.Dynamic.Storage.{
  AllFull, length-flatten, AllFull-drop, AllFull-take, AllFull-append, fits, Overwritten,
  write_blocks_lem,
}
use image_proxy.Dynamic.Grow.{
  Filled, Appended, Grown, no_or_one_block, append_times, append_blocks_lem, flatten-append,
  grow_lem,
}

-- What the first loop leaves, seen from the whole block vector.
record Ended (n : ℕ) (bs : List Bytes) (offset : ℕ) (chunk : Bytes) (k : ℕ) (ds : List Bytes)
    : Type 0 where
  full : AllFull n ds
  count : length ds ≡ length bs
  flat : flatten ds ≡ take offset (flatten bs) ++ (take k chunk ++ drop (offset + k) (flatten bs))

ended :
    (n : ℕ) (bs : List Bytes) (offset k idx pad : ℕ) (chunk : Bytes) (out : List Bytes × Bytes)
    → AllFull n bs
    → offset ≡ idx * n + pad
    → idx ≤ length bs
    → Overwritten n (drop idx bs) pad chunk k out
    → Ended n bs offset chunk k (take idx bs ++ out.0)
ended n bs offset k idx pad chunk out full split inside o = record {
  full = AllFull-append n (take idx bs) out.0 (AllFull-take n idx bs full) o.full;
  count =
      omega
        (arith, length-append (take idx bs) out.0, length-take idx bs, length-drop idx bs, o.count);
  flat =
      rw
        (
          flatten-append (take idx bs) out.0,
          whole,
          take-append_add offset pad front back (omega (arith, at)),
          drop-append_add (offset + k) (pad + k) front back (omega (arith, at)),
          o.flat,
        )
        (sym (append_assoc front (take pad back) _));
}
  where
    front : Bytes
    front = flatten (take idx bs)

    back : Bytes
    back = flatten (drop idx bs)

    at : length front ≡ idx * n
    at =
        length-flatten n (take idx bs) (AllFull-take n idx bs full)
        ∙ ap (λ i. i * n) (omega (arith, length-take idx bs))

    whole : flatten bs ≡ front ++ back
    whole = ap flatten (sym (take-append-drop idx bs)) ∙ flatten-append (take idx bs) (drop idx bs)

-- The data stands in one piece behind `offset`, be it in the old blocks or in new ones.
one_piece :
    (f more : Bytes) (offset k : ℕ) (chunk : Bytes)
    → offset ≤ length f
    → k ≤ length chunk
    → (k ≡ length chunk) ⊎ (length f ≤ offset + k)
    → take (length (drop k chunk)) more ≡ drop k chunk
    → take
        (offset + length chunk)
        ((take offset f ++ (take k chunk ++ drop (offset + k) f)) ++ more)
      ≡ take offset f ++ chunk
one_piece f more offset k chunk h kc (inl e) w =
    rw (e, take-all (length chunk) chunk (omega arith))
      (ap (take (offset + length chunk)) (simp append_assoc)
        ∙ take-append_add (offset + length chunk) (length chunk) (take offset f)
            (chunk ++ (drop (offset + length chunk) f ++ more))
            (omega (arith, length-take offset f))
        ∙ ap (◌++◌ (take offset f)) (
            take-append_le (length chunk) chunk _ (omega arith)
            ∙ take-all (length chunk) chunk (omega arith)))
one_piece f more offset k chunk h kc (inr e) w = rw (
  drop-all (offset + k) f e,
  append-nil,
  append_assoc,
  take-append_add (offset + length chunk) (length chunk) (take offset f) (take k chunk ++ more)
      (omega (arith, length-take offset f)),
  take-append_add (length chunk) (length (drop k chunk)) (take k chunk) more
      (omega (arith, length-take k chunk, length-drop k chunk)),
  w,
  take-append-drop k chunk,
)

sub_times : (l i n : ℕ) → (l - i) * n ≡ l * n - i * n
sub_times l i n = rw (mul_comm (l - i) n, mul_comm l n, mul_comm i n) (mul-sub n l i)

lt_of_times : (l i n : ℕ) → i * n < l * n → i < l
lt_of_times l i n h = elim (dec_lt i l) [ yes p ↦ p | no p ↦ absurd (grind arith) ]

appended :
    (n : ℕ) (cs bs : List Bytes) (offset k : ℕ) (chunk left : Bytes) (ds more : List Bytes)
    → 0 < length chunk
    → Grown n cs offset bs
    → Ended n bs offset chunk k ds
    → Filled n left more
    → left ≡ drop k chunk
    → k ≤ length chunk
    → offset + k ≤ length bs * n
    → (k ≡ length chunk) ⊎ (length bs * n ≤ offset + k)
    → Appended n cs offset chunk (ds ++ more)
appended n cs bs offset k chunk left ds more c g en f e kc room split = record {
  full = AllFull-append n ds more en.full f.full;
  covered = omega (arith, count, rest, f.covered);
  tight = omega (arith, count, rest, f.tight, no_or_one_block (length more) n, g.tight);
  flat =
      rw (flatten-append ds more, en.flat)
        (one_piece (flatten bs) (flatten more) offset k chunk (omega (arith, old, g.room)) kc
            (elim split [ inl p ↦ inl p | inr q ↦ inr (omega (arith, old)) ])
            (subst (λ l. take (length l) (flatten more) ≡ l) e f.flat)
          ∙ ap (λ l. l ++ chunk) g.flat);
}
  where
    count : length (ds ++ more) * n ≡ length bs * n + length more * n
    count = append_times ds more n ∙ ap (λ i. i * n + length more * n) en.count

    rest : length left ≡ length chunk - k
    rest = ap length e ∙ length-drop k chunk

    old : length (flatten bs) ≡ length bs * n
    old = length-flatten n bs g.full

write_rest-some :
    (raw n : ℕ) (bs more : List Bytes) (idx : ℕ) (chunk : Bytes) (out : List Bytes × Bytes)
    → idx ≤ length bs
    → length out.1 < length chunk
    → append_blocks raw n (length out.1) out.1 ≡ some more
    → write_rest raw (record { block_size = n; blocks = bs }) (drop idx bs) chunk out
      ≡ some (record { block_size = n; blocks = (take idx bs ++ out.0) ++ more }, length chunk)
unfolding write_rest
write_rest-some raw n bs more idx chunk out inside left f =
    let b : length bs - length (drop idx bs) ≡ idx = omega (arith, length-drop idx bs) in
    let z : (length chunk - length out.1 == 0) ≡ false = ground arith in rw (z, f, b, append_assoc)

block_at-inside :
    (n : ℕ) (bs : List Bytes) (offset : ℕ)
    → offset / n < length bs
    → block_at (record { block_size = n; blocks = bs }) offset ≡ drop (offset / n) bs
unfolding block_at
block_at-inside n bs offset h = rw (lt→ltb (offset / n) (length bs) h)

-- Both loops, from blocks with room for a byte.
write_from_lem :
    (raw n : ℕ) (cs bs : List Bytes) (offset : ℕ) (chunk : Bytes)
    → 0 < n
    → 0 < length chunk
    → Grown n cs offset bs
    → (ds : List Bytes) × (write_from raw
          (record { block_size = n; blocks = bs })
          (block_at (record { block_size = n; blocks = bs }) offset)
          offset
          chunk
        ≡ some (record { block_size = n; blocks = ds }, length chunk))
      × Appended n cs offset chunk ds
unfolding write_from
write_from_lem raw n cs bs offset chunk pos c g = (
  (take idx bs ++ out.0) ++ filled.0,
  rw (block_at-inside n bs offset inside) (
      write_rest-some raw n bs filled.0 idx chunk out (omega (arith, inside))
        (omega (arith, room, rest)) filled.1),
  appended n cs bs offset k chunk out.1 (take idx bs ++ out.0) filled.0 c g en filled.2 over.left
      (omega arith) (omega (arith, room))
      (elim (dec_le (length chunk) (length bs * n - offset)) [
        | yes p ↦ inl (omega (arith, room))
        | no p ↦ inr (omega (arith, room))
      ]),
)
  where
    idx : ℕ
    idx = offset / n

    out : List Bytes × Bytes
    out = write_blocks n (drop idx bs) (offset % n) chunk

    k : ℕ
    k = fits n (drop idx bs) (offset % n) chunk

    over : Overwritten n (drop idx bs) (offset % n) chunk k out
    over =
        write_blocks_lem n (drop idx bs) (offset % n) chunk (AllFull-drop n idx bs g.full)
          (omega arith)

    inside : idx < length bs
    inside = lt_of_times (length bs) idx n (omega (arith, g.room))

    room : (k ≡ min (length chunk) (length bs * n - offset)) × (offset < length bs * n)
    room = (
      omega (arith, ap (λ i. i * n) (length-drop idx bs), sub_times (length bs) idx n, g.room),
      g.room,
    )

    rest : length out.1 ≡ length chunk - k
    rest = ap length over.left ∙ length-drop k chunk

    en : Ended n bs offset chunk k (take idx bs ++ out.0)
    en =
        ended n bs offset k idx (offset % n) chunk out g.full (omega arith) (omega (arith, inside))
          over

    filled :
        (more : List Bytes) × (append_blocks raw n (length out.1) out.1 ≡ some more)
        × Filled n out.1 more
    filled = append_blocks_lem raw n (length out.1) out.1 pos (omega arith)

-- `MemoryStorage::Write` at the end of the data takes it all, whatever the block size.
pub storage_write_lem :
    (raw : ℕ) (m : MemoryStorage) (offset : ℕ) (chunk : Bytes)
    → 0 < m.block_size
    → AllFull m.block_size m.blocks
    → offset ≤ length m.blocks * m.block_size
    → length m.blocks * m.block_size < offset + m.block_size
    → 0 < length chunk
    → (ds : List Bytes) × (storage_write raw m offset chunk
        ≡ some (record { block_size = m.block_size; blocks = ds }, length chunk))
      × Appended m.block_size m.blocks offset chunk ds
unfolding storage_write
storage_write_lem raw m offset chunk pos full covered tight c =
    let (bs, e, g) = grow_lem raw m offset pos full covered tight in
    rw e (write_from_lem raw m.block_size m.blocks bs offset chunk pos c g)
