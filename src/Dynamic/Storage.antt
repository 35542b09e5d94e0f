-- ===== src/Dynamic/Storage.antt =====
-- The block vector as one run of bytes: what the loops of `MemoryStorage` read and write.
use image_proxy.Base.{
  ℕ, zero, suc, ◌+◌, ◌-◌, ◌*◌, ◌/◌, ◌≤◌, ◌<◌, min, ◌≡◌, refl, sym, ap, ◌∙◌, inl, inr, false, List,
  [], ◌∷◌, ◌++◌, flatten, append-nil, append_assoc, arith, ltb, ◌==◌, Bool-cases, length, take,
  drop, All, length-append, length-take, length-drop, take-add, drop-drop, take-all, drop-all,
  take-append_le, take-append_add, drop-append_le, drop-append_add, Bytes, dec_le,
}
use image_proxy.Dynamic.{read_blocks, overwrite, write_blocks, block_at, MemoryStorage}

-- Every block is N bytes long.
abbrev pub AllFull : ℕ → List Bytes → Type 0
AllFull n = All (λ (b : Bytes). length b ≡ n)

pub length-flatten : (n : ℕ) (bs : List Bytes) → AllFull n bs → length (flatten bs) ≡ length bs * n
unfolding flatten
length-flatten n [] h = omega arith
length-flatten n (b ∷ bs) h =
    omega (arith, length-append b (flatten bs), length-flatten n bs h.1, h.0)

pub AllFull-drop : (n k : ℕ) (bs : List Bytes) → AllFull n bs → AllFull n (drop k bs)
AllFull-drop n zero bs h = h
AllFull-drop n (suc k) [] h = tt
AllFull-drop n (suc k) (b ∷ bs) h = AllFull-drop n k bs h.1

pub AllFull-take : (n k : ℕ) (bs : List Bytes) → AllFull n bs → AllFull n (take k bs)
AllFull-take n zero bs h = tt
AllFull-take n (suc k) [] h = tt
AllFull-take n (suc k) (b ∷ bs) h = (h.0, AllFull-take n k bs h.1)

pub AllFull-append :
    (n : ℕ) (cs bs : List Bytes) → AllFull n cs → AllFull n bs → AllFull n (cs ++ bs)
AllFull-append n [] bs h k = k
AllFull-append n (c ∷ cs) bs h k = (h.0, AllFull-append n cs bs h.1 k)

-- Dropping whole blocks drops their bytes.
pub flatten-drop :
    (n k m : ℕ) (bs : List Bytes)
    → AllFull n bs
    → m ≡ k * n
    → flatten (drop k bs) ≡ drop m (flatten bs)
unfolding flatten
flatten-drop n zero m bs h e = let e' : 0 ≡ m = omega arith in ap (λ i. drop i (flatten bs)) e'
flatten-drop n (suc k) m [] h e = sym (drop-all m [] (omega arith))
flatten-drop n (suc k) m (b ∷ bs) h e =
    flatten-drop n k (k * n) bs h.1 refl
    ∙ sym (drop-append_add m (k * n) b (flatten bs) (omega (arith, h.0)))

-- The read loop copies what stands from `pad` on, up to `size` bytes of it.
pub read_blocks_lem :
    (n : ℕ) (bs : List Bytes) (pad size : ℕ)
    → AllFull n bs
    → pad < n
    → (read_blocks n bs pad size).1 ≡ take size (drop pad (flatten bs))
unfolding read_blocks flatten
read_blocks_lem n [] pad size h p =
    ground (arith, drop-all {A = ℕ} pad [], take-all {A = ℕ} size [])
read_blocks_lem n (b ∷ bs) pad size h p = ground (
  arith,
  h.0,
  read_blocks_lem n bs 0 (size - min (n - pad) size) h.1,
  drop-append_le pad b (flatten bs),
  take-append_le size (drop pad b) (flatten bs),
  take-append_add size (size - (n - pad)) (drop pad b) (flatten bs),
  take-all (n - pad) (drop pad b),
  length-drop pad b,
)

-- A block after a copy into it.
pub overwrite-length :
    (n : ℕ) (b : Bytes) (pad : ℕ) (chunk : Bytes)
    → length b ≡ n
    → pad + length chunk ≤ n
    → length (overwrite b pad chunk) ≡ n
unfolding overwrite
overwrite-length n b pad chunk h p = omega (
  arith,
  length-append (take pad b) (chunk ++ drop (pad + length chunk) b),
  length-append chunk (drop (pad + length chunk) b),
  length-take pad b,
  length-drop (pad + length chunk) b,
)

-- How many of `chunk`'s bytes fit behind `pad`.
abbrev pub fits : ℕ → List Bytes → ℕ → Bytes → ℕ
fits n bs pad chunk = min (length chunk) (length bs * n - pad)

-- The write loop puts the first `k` bytes of the data behind `pad`, leaves the others, and keeps
-- the rest of the blocks.
pub record Overwritten (n : ℕ) (bs : List Bytes) (pad : ℕ) (chunk : Bytes) (k : ℕ)
    (out : List Bytes × Bytes) : Type 0 where
  pub full : AllFull n out.0
  pub count : length out.0 ≡ length bs
  pub left : out.1 ≡ drop k chunk
  pub flat : flatten out.0 ≡ take pad (flatten bs) ++ (take k chunk ++ drop (pad + k) (flatten bs))

write_last :
    (n : ℕ) (b : Bytes) (bs : List Bytes) (pad : ℕ) (chunk : Bytes)
    → length b ≡ n
    → AllFull n bs
    → pad < n
    → length chunk ≤ n - pad
    → Overwritten n (b ∷ bs) pad chunk (length chunk) (overwrite b pad chunk ∷ bs, [])
unfolding overwrite flatten
write_last n b bs pad chunk hb h p c = record {
  full = (overwrite-length n b pad chunk hb (omega arith), h);
  count = refl;
  left = sym (drop-all (length chunk) chunk (omega arith));
  flat =
      rw
        (
          take-append_le pad b (flatten bs) (omega arith),
          take-all (length chunk) chunk (omega arith),
          drop-append_le (pad + length chunk) b (flatten bs) (omega arith),
        )
        (simp append_assoc);
}

write_on :
    (n : ℕ) (b : Bytes) (bs : List Bytes) (pad k k' : ℕ) (chunk : Bytes) (out : List Bytes × Bytes)
    → length b ≡ n
    → pad < n
    → n - pad < length chunk
    → k ≡ (n - pad) + k'
    → Overwritten n bs 0 (drop (n - pad) chunk) k' out
    → Overwritten n (b ∷ bs) pad chunk k (overwrite b pad (take (n - pad) chunk) ∷ out.0, out.1)
unfolding overwrite flatten
write_on n b bs pad k k' chunk out hb p c e o = record {
  full = (overwrite-length n b pad _ hb (omega (arith, length-take (n - pad) chunk)), o.full);
  count = omega (arith, o.count);
  left = o.left ∙ drop-drop k (n - pad) k' chunk e;
  flat =
      rw
        (
          take-append_le pad b (flatten bs) (omega arith),
          take-add k (n - pad) k' chunk e,
          drop-append_add (pad + k) k' b (flatten bs) (omega arith),
          drop-all (pad + length (take (n - pad) chunk)) b
              (omega (arith, length-take (n - pad) chunk)),
          o.flat,
          drop-append_add (0 + k') k' [] (flatten bs) (omega arith),
        )
        (simp (append_assoc, append-nil));
}

write_none : (n pad : ℕ) (chunk : Bytes) → Overwritten n [] pad chunk 0 ([], chunk)
unfolding flatten
write_none n pad chunk = record {
  full = tt;
  count = refl;
  left = refl;
  flat = rw (take-all {A = ℕ} pad [] (omega arith), drop-all {A = ℕ} (pad + 0) [] (omega arith));
}

pub write_blocks_lem :
    (n : ℕ) (bs : List Bytes) (pad : ℕ) (chunk : Bytes)
    → AllFull n bs
    → pad < n
    → Overwritten n bs pad chunk (fits n bs pad chunk) (write_blocks n bs pad chunk)
unfolding write_blocks
write_blocks_lem n [] pad chunk h p =
    let e : fits n [] pad chunk ≡ 0 = omega arith in rw e (write_none n pad chunk)
write_blocks_lem n (b ∷ bs) pad chunk h p = elim (dec_le (length chunk) (n - pad)) [
  | yes c ↦
      let k : fits n (b ∷ bs) pad chunk ≡ length chunk = omega arith in
      let m : min (n - pad) (length chunk) ≡ length chunk = omega arith in
      let z : length chunk - length chunk ≡ 0 = omega arith in
      rw (k, m, z, take-all (length chunk) chunk (omega arith))
        (write_last n b bs pad chunk h.0 h.1 p c)
  | no c ↦
      let k : fits n (b ∷ bs) pad chunk ≡ (n - pad) + fits n bs 0 (drop (n - pad) chunk) =
        omega (arith, length-drop (n - pad) chunk) in
      let m : min (n - pad) (length chunk) ≡ n - pad = omega arith in
      let z : (length chunk - (n - pad) == 0) ≡ false = ground arith in
      rw (m, z)
        (write_on n b bs pad _ _ chunk _ h.0 p (omega arith) k
          (write_blocks_lem n bs 0 (drop (n - pad) chunk) h.1 (omega arith)))
]

pub block_at-AllFull :
    (m : MemoryStorage) (offset : ℕ)
    → AllFull m.block_size m.blocks
    → AllFull m.block_size (block_at m offset)
unfolding block_at
block_at-AllFull m offset h = elim (Bool-cases (ltb (offset / m.block_size) (length m.blocks))) [
  | inl e ↦ rw e (AllFull-drop m.block_size (offset / m.block_size) m.blocks h)
  | inr e ↦ rw e tt
]
