-- ===== src/Memory/Contents.antt =====
-- The fixed memory as bytes with a position: what `Write` puts there and `Read` returns.
use image_proxy.Base.{
  ℕ, ◌+◌, ◌-◌, ◌%◌, ◌≤◌, ◌<◌, min, ◌≡◌, refl, sym, ap, ◌∙◌, inl, inr, true, false, ◌&&◌, [], ◌∷◌,
  ◌++◌, arith, ltb, if◌then◌else◌, Bool-cases, length, take, drop, length-append, length-take,
  length-drop, take-append-drop, take-all, Bytes, dec_le,
}
use image_proxy.Dynamic
use image_proxy.Memory.{MemoryStream, throws, returns, int_mod, end_of, read, write}

-- The position is within the size, and the memory has the size.
pub record IsValid (s : MemoryStream) : Type 0 where
  pub offset_in : s.p_offset ≤ s.p_size
  pub in_memory : length s.p ≡ s.p_size
  pub below : s.p_size < int_mod

-- The rest of the memory behind the position.
abbrev pub remaining : MemoryStream → Bytes
remaining s = drop s.p_offset s.p

no_wrap :
    (s : MemoryStream) (size : ℕ)
    → IsValid s
    → s.p_offset + size < int_mod
    → (end_of s size ≡ s.p_offset + size)
      × (ltb (end_of s size) s.p_offset ≡ false)
      × (min s.p_size (end_of s size) - s.p_offset ≡ min size (s.p_size - s.p_offset))
no_wrap s size v h =
    let e : end_of s size ≡ s.p_offset + size = omega arith in
    (e, ground (arith, e), omega (arith, e, v.offset_in))

take-cut : (size room : ℕ) (b : Bytes) → length b ≡ room → take (min size room) b ≡ take size b
take-cut size room b e = elim (dec_le size room) [
  | yes h ↦ let n : min size room ≡ size = omega arith in rw n refl
  | no h ↦
      let n : min size room ≡ room = omega arith in
      rw n (take-all room b (omega arith) ∙ sym (take-all size b (omega arith)))
]

length-remaining : (s : MemoryStream) → IsValid s → length (remaining s) ≡ s.p_size - s.p_offset
length-remaining s v = omega (arith, length-drop s.p_offset s.p, v.in_memory)

-- In a valid stream, `Read` of a size that does not wrap returns the next bytes, as many as were
-- asked for if there are so many, moves behind them, and leaves the memory as it is.
pub read_next :
    (s : MemoryStream) (size : ℕ)
    → IsValid s
    → s.p_offset + size < int_mod
    → let (s', bytes) = read s size in
      (bytes ≡ take size (remaining s))
      × (s'.p_offset ≡ s.p_offset + length bytes)
      × (s'.p ≡ s.p)
      × IsValid s'
unfolding read
read_next s size v h =
    let (e, f, r) = no_wrap s size v h in
    let l : length (take size (remaining s)) ≡ min size (s.p_size - s.p_offset) =
      omega (arith, length-take size (remaining s), length-remaining s v) in
    elim (Bool-cases (ltb 0 (min size (s.p_size - s.p_offset)))) [
      | inl g ↦
          rw (f, r, g)
            (
              take-cut size (s.p_size - s.p_offset) (remaining s) (length-remaining s v),
              ap (λ n. s.p_offset + n)
                  (sym l
                    ∙ ap length (
                        sym (
                          take-cut size (s.p_size - s.p_offset) (remaining s)
                            (length-remaining s v)))),
              refl,
              record {
                offset_in = omega (arith, v.offset_in);
                in_memory = v.in_memory;
                below = v.below;
              },
            )
      | inr g ↦
          rw (f, r, g) (nothing (take size (remaining s)) (ground (arith, l)), omega arith, refl, v)
    ]
  where
    nothing : (b : Bytes) → length b ≡ 0 → [] ≡ b
    nothing [] e = refl
    nothing (x ∷ b) e = absurd (omega arith)

length-overwrite :
    (b : Bytes) (at : ℕ) (chunk : Bytes)
    → at + length chunk ≤ length b
    → length (Dynamic.overwrite b at chunk) ≡ length b
unfolding Dynamic.overwrite
length-overwrite b at chunk h = omega (
  arith,
  length-append (take at b) (chunk ++ drop (at + length chunk) b),
  length-append chunk (drop (at + length chunk) b),
  length-take at b,
  length-drop (at + length chunk) b,
)

-- The stream after `n` bytes were written.
abbrev written : MemoryStream → ℕ → Bytes → MemoryStream
written s n chunk = record s {
  p = Dynamic.overwrite s.p s.p_offset (take n chunk);
  p_offset = s.p_offset + n;
  state = true;
}

nothing_written : (b : Bytes) (at : ℕ) → b ≡ Dynamic.overwrite b at []
unfolding Dynamic.overwrite
nothing_written b at = let z : at + 0 ≡ at = omega arith in rw z (sym (take-append-drop at b))

-- In a valid stream, `Write` of data whose size does not wrap throws exactly when the stream is set to
-- and the data is longer than the rest, and then changes nothing; else it puts in the data, or as much
-- of it as fits, moves behind it, and says how much.
pub write_some :
    (s : MemoryStream) (chunk : Bytes)
    → IsValid s
    → s.p_offset + length chunk < int_mod
    → let n = min (length chunk) (s.p_size - s.p_offset) in
      (s' : MemoryStream) × (write s chunk
        ≡ (if s.throw_eof_write && ltb n (length chunk) then throws s else returns s' n))
      × (s'.p ≡ Dynamic.overwrite s.p s.p_offset (take n chunk))
      × (s'.p_offset ≡ s.p_offset + n)
      × IsValid s'
unfolding write
write_some s chunk v h =
    let (e, f, r) = no_wrap s (length chunk) v h in
    let m : length chunk % int_mod ≡ length chunk = omega arith in
    elim (Bool-cases (ltb 0 (min (length chunk) (s.p_size - s.p_offset)))) [
      | inl g ↦ (
        written s (min (length chunk) (s.p_size - s.p_offset)) chunk,
        rw (f, r, m, g) refl,
        refl,
        refl,
        record {
          offset_in = omega (arith, v.offset_in);
          in_memory =
              length-overwrite s.p s.p_offset
                (take (min (length chunk) (s.p_size - s.p_offset)) chunk)
                (omega (
                  arith,
                  length-take (min (length chunk) (s.p_size - s.p_offset)) chunk,
                  v.in_memory,
                  v.offset_in,
                ))
              ∙ v.in_memory;
          below = v.below;
        },
      )
      | inr g ↦
          let z : min (length chunk) (s.p_size - s.p_offset) ≡ 0 = ground arith in
          (s, rw (f, r, m, z) refl, rw z (nothing_written s.p s.p_offset), rw z (omega arith), v)
    ]
