-- ===== src/Dynamic/Grow.antt =====
-- The blocks that are added behind the last one: the second loop of `MemoryStorage::Write`, and the
-- block for an offset just behind the end.
use image_proxy.Base.{
  ℕ, zero, suc, ◌+◌, ◌*◌, ◌≤◌, ◌<◌, min, ◌≡◌, refl, sym, subst, ◌∙◌, ◌⊎◌, inl, inr, some, List, [],
  ◌∷◌, ◌++◌, flatten, append-nil, append_assoc, arith, ◌==◌, ==→eq, Bool-cases, length, take, drop,
  replicate, length-append, length-take, length-drop, length-replicate, take-append-drop, take-all,
  drop-all, take-append_le, take-append_add, Bytes, dec_le,
}
use image_proxy.Dynamic.{MemoryStorage, overwrite, append_blocks, grow}
use image_proxy.Dynamic.Storage.{AllFull, length-flatten, AllFull-append, overwrite-length}

-- Blocks take up no bytes, or a block's at least.
pub no_or_one_block : (k n : ℕ) → (k * n ≡ 0) ⊎ (n ≤ k * n)
no_or_one_block zero n = inl (omega arith)
no_or_one_block (suc k) n = inr (omega arith)

-- The new blocks hold the data, then what fills up the last of them.
pub record Filled (n : ℕ) (chunk : Bytes) (bs : List Bytes) : Type 0 where
  pub full : AllFull n bs
  pub covered : length chunk ≤ length bs * n
  pub tight : length bs * n < length chunk + n
  pub flat : take (length chunk) (flatten bs) ≡ chunk

pub cons_times : (b : Bytes) (bs : List Bytes) (n : ℕ) → length (b ∷ bs) * n ≡ length bs * n + n
cons_times b bs n = step (length bs)
  where
    step : (k : ℕ) → suc k * n ≡ k * n + n
    step k = omega arith

pub append_times :
    (cs bs : List Bytes) (n : ℕ) → length (cs ++ bs) * n ≡ length cs * n + length bs * n
append_times cs bs n = rw (length-append cs bs) (omega arith)

pub fill_flat :
    (raw n : ℕ) (chunk : Bytes) (bs : List Bytes)
    → take (length (drop (min n (length chunk)) chunk)) (flatten bs)
      ≡ drop (min n (length chunk)) chunk
    → take (length chunk) (
        (take (min n (length chunk)) chunk
          ++ drop (0 + length (take (min n (length chunk)) chunk)) (replicate n raw))
        ++ flatten bs)
      ≡ chunk
fill_flat raw n chunk bs f = elim (dec_le (length chunk) n) [
  | yes c ↦
      let m : min n (length chunk) ≡ length chunk = omega arith in
      rw (m, take-all (length chunk) chunk (omega arith), append_assoc)
        (take-append_le (length chunk) chunk _ (omega arith)
          ∙ take-all (length chunk) chunk (omega arith))
  | no c ↦
      let m : min n (length chunk) ≡ n = omega arith in
      let k : length (take n chunk) ≡ n = omega (arith, length-take n chunk) in
      let g : take (length (drop n chunk)) (flatten bs) ≡ drop n chunk =
        subst (λ i. take (length (drop i chunk)) (flatten bs) ≡ drop i chunk) m f in
      rw
        (
          m,
          drop-all (0 + length (take n chunk)) (replicate n raw)
              (omega (arith, k, length-replicate n raw)),
          append-nil,
          take-append_add (length chunk) (length (drop n chunk)) (take n chunk) (flatten bs)
              (omega (arith, k, length-drop n chunk)),
          g,
        )
        (take-append-drop n chunk)
]

pub fill_one :
    (raw n : ℕ) (chunk : Bytes) (bs : List Bytes)
    → 0 < n
    → 0 < length chunk
    → Filled n (drop (min n (length chunk)) chunk) bs
    → Filled n chunk (overwrite (replicate n raw) 0 (take (min n (length chunk)) chunk) ∷ bs)
unfolding overwrite flatten
fill_one raw n chunk bs h c f = record {
  full = (
    overwrite-length n (replicate n raw) 0 (take (min n (length chunk)) chunk)
        (length-replicate n raw) (omega (arith, length-take (min n (length chunk)) chunk)),
    f.full,
  );
  covered =
      rw (cons_times _ bs n) (omega (arith, f.covered, length-drop (min n (length chunk)) chunk));
  tight = rw (cons_times _ bs n) (
      omega
        (arith, f.tight, no_or_one_block (length bs) n, length-drop (min n (length chunk)) chunk));
  flat = fill_flat raw n chunk bs f.flat;
}

-- With a byte of fuel for each byte of data the loop ends, if blocks are not empty.
pub append_blocks_lem :
    (raw n fuel : ℕ) (chunk : Bytes)
    → 0 < n
    → length chunk ≤ fuel
    → (bs : List Bytes) × (append_blocks raw n fuel chunk ≡ some bs) × Filled n chunk bs
unfolding append_blocks
append_blocks_lem raw n fuel [] h f =
    ([], refl, record { full = tt; covered = omega arith; tight = omega arith; flat = refl })
append_blocks_lem raw n zero (x ∷ chunk) h f = absurd (omega arith)
append_blocks_lem raw n (suc fuel) (x ∷ chunk) h f =
    let (bs, e, w) =
      append_blocks_lem raw n fuel (drop (min n (length (x ∷ chunk))) (x ∷ chunk)) h
        (omega (arith, length-drop (min n (length (x ∷ chunk))) (x ∷ chunk))) in
    (_, rw (e, append_blocks), fill_one raw n (x ∷ chunk) bs h (omega arith) w)

-- The blocks after the data went in at the end.
pub record Appended (n : ℕ) (bs : List Bytes) (offset : ℕ) (chunk : Bytes) (ds : List Bytes)
    : Type 0 where
  pub full : AllFull n ds
  pub covered : offset + length chunk ≤ length ds * n
  pub tight : length ds * n < offset + length chunk + n
  pub flat : take (offset + length chunk) (flatten ds) ≡ take offset (flatten bs) ++ chunk

-- The blocks with room for one more byte behind `offset`.
pub record Grown (n : ℕ) (bs : List Bytes) (offset : ℕ) (ds : List Bytes) : Type 0 where
  pub full : AllFull n ds
  pub room : offset < length ds * n
  pub tight : length ds * n ≤ offset + n
  pub flat : take offset (flatten ds) ≡ take offset (flatten bs)

pub flatten-append : (cs bs : List Bytes) → flatten (cs ++ bs) ≡ flatten cs ++ flatten bs
unfolding flatten
flatten-append [] bs = refl
flatten-append (c ∷ cs) bs =
    rw (flatten-append cs bs) (sym (append_assoc c (flatten cs) (flatten bs)))

pub grow_lem :
    (raw : ℕ) (m : MemoryStorage) (offset : ℕ)
    → 0 < m.block_size
    → AllFull m.block_size m.blocks
    → offset ≤ length m.blocks * m.block_size
    → length m.blocks * m.block_size < offset + m.block_size
    → (ds : List Bytes) × (grow raw m offset ≡ record { block_size = m.block_size; blocks = ds })
      × Grown m.block_size m.blocks offset ds
unfolding grow
grow_lem raw m offset pos full covered tight =
    elim (Bool-cases (length m.blocks * m.block_size == offset)) [
      | inl e ↦ (m.blocks ++ more, rw e, at_end (==→eq _ _ e))
      | inr e ↦ (
        m.blocks,
        rw e,
        record { full = full; room = ground arith; tight = omega arith; flat = refl },
      )
    ]
  where
    more : List Bytes
    more = replicate m.block_size raw ∷ []

    count : length (m.blocks ++ more) * m.block_size ≡ length m.blocks * m.block_size + m.block_size
    count = omega (
      arith,
      append_times m.blocks more m.block_size,
      cons_times (replicate m.block_size raw) [] m.block_size,
    )

    at_end :
        length m.blocks * m.block_size ≡ offset
        → Grown m.block_size m.blocks offset (m.blocks ++ more)
    at_end o = record {
      full = AllFull-append m.block_size m.blocks more full (length-replicate m.block_size raw, tt);
      room = omega (arith, count);
      tight = omega (arith, count);
      flat = rw (flatten-append m.blocks more) (
          take-append_le offset (flatten m.blocks) (flatten more)
            (omega (arith, o, length-flatten m.block_size m.blocks full)));
    }
