-- ===== src/Dynamic/RoundTrip.antt =====
-- `Seek`, and what was written in pieces read back from the start.
use image_proxy.Base.{
  ℕ, ◌+◌, ◌<◌, ◌≡◌, refl, sym, ap, ◌∙◌, ◌⊎◌, inl, inr, Bool, true, false, Option, none, some, List,
  [], ◌∷◌, ◌++◌, flatten, append-nil, append_assoc, arith, ltb, leb, Bool-cases, length, take, All,
  length-append, Bytes,
}
use image_proxy.Base.Int.{ℤ, pos, negsuc}
use image_proxy.Dynamic.{
  DynamicMemoryStream, init, read, write, seek, seek_to, seek_target, size_mod, u32_mod,
}
use image_proxy.Dynamic.Contents.{write_lem, read_lem}
use image_proxy.Dynamic.State.{IsValid, contents, length-contents, init-IsValid}

-- Whether a target is a position from 0 to a size.
abbrev pub in_range : ℕ → Option ℤ → Bool
in_range size none = false
in_range size (some (negsuc n)) = false
in_range size (some (pos n)) = leb n size

-- What `Seek` owes its caller for a target: it moves there if that is a position, or changes nothing.
abbrev pub Sought : DynamicMemoryStream → Option ℤ → DynamicMemoryStream × Bool × Option ℕ → Type 0
Sought s target (s', found, position) =
    ((found ≡ true) × (position ≡ some s'.p_offset) × (target ≡ some (pos s'.p_offset)))
    ⊎ ((found ≡ false) × (position ≡ none) × (s' ≡ s) × (in_range s.p_size target ≡ false))

seek_to_lem :
    (s : DynamicMemoryStream) (target : Option ℤ)
    → IsValid s
    → IsValid (seek_to s target).0
      × (contents (seek_to s target).0 ≡ contents s)
      × Sought s target (seek_to s target)
unfolding seek_to contents
seek_to_lem s none v = (v, refl, inr (refl, refl, refl, refl))
seek_to_lem s (some (negsuc n)) v = (v, refl, inr (refl, refl, refl, refl))
seek_to_lem s (some (pos n)) v = elim (Bool-cases (ltb s.p_size n)) [
  | inl far ↦ rw far (v, refl, inr (refl, refl, refl, ground arith))
  | inr near ↦ rw near (
    record {
      positive = v.positive;
      full = v.full;
      offset_in = ground arith;
      covered = v.covered;
      tight = v.tight;
      in_memory = v.in_memory;
    },
    refl,
    inl (refl, refl, refl),
  )
]

-- `Seek` keeps the stream valid and its contents. It succeeds exactly when the target is a position
-- from 0 to the size, then moves there and reports it; else it changes nothing.
pub seek_lem :
    (s : DynamicMemoryStream) (move_to : ℤ) (method : ℕ)
    → IsValid s
    → IsValid (seek s move_to method).0
      × (contents (seek s move_to method).0 ≡ contents s)
      × Sought s (seek_target s move_to method) (seek s move_to method)
unfolding seek
seek_lem s move_to method v = seek_to_lem s (seek_target s move_to method) v

-- Writing the pieces one after the other, as the callbacks of the HTTP parser do.
unfoldable pub write_all : ℕ → DynamicMemoryStream → List Bytes → Option DynamicMemoryStream
write_all raw s [] = some s
write_all raw s (c ∷ cs) = elim (write raw s c) [ none ↦ none | some (s', r) ↦ write_all raw s' cs ]

length-flatten_cons :
    (c : Bytes) (cs : List Bytes) → length (flatten (c ∷ cs)) ≡ length c + length (flatten cs)
unfolding flatten
length-flatten_cons c cs = length-append c (flatten cs)

write_all-cons :
    (raw : ℕ) (s s' : DynamicMemoryStream) (r : ℕ) (c : Bytes) (cs : List Bytes)
    → write raw s c ≡ some (s', r)
    → write_all raw s (c ∷ cs) ≡ write_all raw s' cs
unfolding write_all
write_all-cons raw s s' r c cs e = ground arith

write_all_lem :
    (raw : ℕ) (s : DynamicMemoryStream) (cs : List Bytes)
    → IsValid s
    → s.p_offset ≡ s.p_size
    → All (λ (c : Bytes). length c < u32_mod) cs
    → s.p_size + length (flatten cs) < size_mod
    → (s' : DynamicMemoryStream) × (write_all raw s cs ≡ some s')
      × IsValid s'
      × (contents s' ≡ contents s ++ flatten cs)
unfolding write_all flatten
write_all_lem raw s [] v e h z = (s, refl, v, sym (append-nil _))
write_all_lem raw s (c ∷ cs) v e h z =
    let (s1, w, v1, c1, e1) =
      write_lem raw s c v e h.0 (omega (arith, length-append c (flatten cs))) in
    let size1 : s1.p_size ≡ s.p_size + length c = omega (
      arith,
      length-contents s1 v1,
      length-contents s v,
      ap length c1,
      length-append (contents s) c,
    ) in
    let (s2, w2, v2, c2) =
      write_all_lem raw s1 cs v1 e1 h.1 (omega (arith, size1, length-append c (flatten cs))) in
    (
      s2,
      write_all-cons raw s s1 (length c) c cs w ∙ w2,
      v2,
      c2 ∙ ap (λ b. b ++ flatten cs) c1 ∙ append_assoc (contents s) c (flatten cs),
    )

short_pieces :
    (cs : List Bytes) → length (flatten cs) < u32_mod → All (λ (c : Bytes). length c < u32_mod) cs
unfolding flatten
short_pieces [] h = tt
short_pieces (c ∷ cs) h = (
  omega (arith, length-append c (flatten cs)),
  short_pieces cs (omega (arith, length-append c (flatten cs))),
)

at_start : {s : DynamicMemoryStream} → IsValid s → IsValid (record s { p_offset = 0 })
at_start v = record {
  positive = v.positive;
  full = v.full;
  offset_in = omega arith;
  covered = v.covered;
  tight = v.tight;
  in_memory = v.in_memory;
}

seek-start : (s : DynamicMemoryStream) → (seek s (pos 0) 0).0 ≡ record s { p_offset = 0 }
unfolding seek seek_target
seek-start s = ground arith

-- Pieces of fewer than 2^32 bytes together, written into a new stream of any positive block size and read from
-- the start, are the pieces in a row, cut at the number of bytes asked for.
pub write-seek-read :
    (raw block_size size : ℕ) (cs : List Bytes)
    → 0 < block_size
    → length (flatten cs) < u32_mod
    → (s : DynamicMemoryStream) × (write_all raw (init block_size) cs ≡ some s)
      × ((read (seek s (pos 0) 0).0 size).1 ≡ take size (flatten cs))
unfolding init contents
write-seek-read raw block_size size cs h z =
    let start : IsValid (init block_size) = init-IsValid block_size h in
    let (s, w, v, c) =
      write_all_lem raw (init block_size) cs start refl (short_pieces cs z) (omega arith) in
    (
      s,
      w,
      rw (seek-start s) (
          (read_lem (record s { p_offset = 0 }) size (at_start v)
            (omega (
              arith,
              length-contents s v,
              ap length c,
              length-append (contents (init block_size)) (flatten cs),
              empty,
            ))).0
          ∙ ap (take size) c),
    )
  where
    empty : length (contents (init block_size)) ≡ 0
    empty = length-contents (init block_size) (init-IsValid block_size h)
