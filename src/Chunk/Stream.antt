-- ===== src/Chunk/Stream.antt =====
-- The loop that sends a stream in chunks.
use image_proxy.Base.{
  ℕ, zero, suc, ◌+◌, ◌-◌, ◌≤◌, ◌<◌, ◌≡◌, refl, sym, ap, ap₂, ◌∙◌, false, Option, none, some, List,
  [], ◌∷◌, ◌++◌, flatten, arith, ◌==◌, if◌then◌else◌, length, take, drop, All, length-append,
  length-take, take-append-drop, drop-drop, Bytes, dec_lt,
}
use image_proxy.Dynamic
use image_proxy.Dynamic.{
  DynamicMemoryStream, u32_mod, size_mod, block_at, read_blocks, storage_read, overwrite,
  write_blocks, append_blocks, grow, write_rest, write_from, storage_write, init, read, write,
  seek_target, seek_to, seek, tell, stream_size, copy_blocks, copy_to, MemoryStorage,
}
use image_proxy.Dynamic.State.{IsValid, contents, length-contents}
use image_proxy.Dynamic.Contents.{read_lem}
use image_proxy.Base.Int.{pos}
use image_proxy.Response.{buffer_size, is_code}
use image_proxy.Chunk.{
  handle_write, Sending, send_all, build_chunk, chunk_offset, max_chunk_size, write_next, prepend,
}
use image_proxy.Chunk.Codec.{chunk_text, dechunk, dechunk-last, dechunk-more, length-chunk_text}
use image_proxy.Chunk.Frame.{build_chunk-chunk_text}

-- A stream on its way, with the buffer as the connection has it.
abbrev pub sending : DynamicMemoryStream → Bytes → Sending
sending s buf = record { status_code = pos 200; image = some s; buffer = buf }

-- The bytes that are still to be read.
abbrev pub left : DynamicMemoryStream → Bytes
left s = drop s.p_offset (contents s)

-- The stream after the chunk was read, while it is kept.
abbrev kept_stream : DynamicMemoryStream → Bytes → Option DynamicMemoryStream
kept_stream s bytes = if length bytes == 0 then none else some s

handle_write_lem :
    (s : DynamicMemoryStream) (buf : Bytes)
    → IsValid s
    → s.p_size - s.p_offset < u32_mod
    → length buf ≡ buffer_size
    → let (s', bytes) = Dynamic.read s max_chunk_size in
      (buf' : Bytes) × (length buf' ≡ buffer_size)
      × (handle_write (sending s buf) ≡ (
        record { status_code = pos 200; image = kept_stream s' bytes; buffer = buf' },
        some (chunk_text bytes),
      ))
unfolding handle_write write_next is_code
handle_write_lem s buf v u l =
    let (s', bytes) = Dynamic.read s max_chunk_size in
    let next = read_lem s max_chunk_size v u in
    let framed =
      build_chunk-chunk_text buf bytes l
        (omega (arith, ap length next.0, length-take max_chunk_size (left s))) in
    let built = build_chunk (Dynamic.overwrite buf chunk_offset bytes) (length bytes) in
    (
      built.0,
      framed.1,
      ap
          (λ t. (
            record { status_code = pos 200; image = kept_stream s' bytes; buffer = built.0 },
            some t,
          ))
          framed.0,
    )

send_all-none :
    (fuel : ℕ) (buf : Bytes)
    → send_all (suc fuel) (record { status_code = pos 200; image = none; buffer = buf }) ≡ some []
unfolding send_all handle_write write_next is_code
send_all-none fuel buf = refl

pub send_all-last :
    (fuel : ℕ) (c c1 : Sending) → handle_write c ≡ (c1, none) → send_all (suc fuel) c ≡ some []
unfolding send_all
send_all-last fuel c c1 e = rw (send_all, ap (λ t. t.1) e) refl

pub send_all-more :
    (fuel : ℕ) (c c1 : Sending) (x : Bytes)
    → handle_write c ≡ (c1, some x)
    → send_all (suc fuel) c ≡ prepend x (send_all fuel c1)
unfolding send_all
send_all-more fuel c c1 x e = rw (send_all, ap (λ t. t.1) e, ap (λ t. t.0) e) refl

send_all-step :
    (fuel : ℕ) (c c1 : Sending) (x : Bytes) (xs : List Bytes)
    → handle_write c ≡ (c1, some x)
    → send_all fuel c1 ≡ some xs
    → send_all (suc fuel) c ≡ some (x ∷ xs)
unfolding prepend
send_all-step fuel c c1 x xs e h = send_all-more fuel c c1 x e ∙ ap (prepend x) h

-- What is sent of a stream: as many writes as the fuel has, none larger than the buffer.
pub record Sent (fuel : ℕ) (c : Sending) (body : Bytes) : Type 0 where
  pub writes : List Bytes
  pub all_sent : send_all fuel c ≡ some writes
  pub decoded : dechunk fuel (flatten writes) ≡ some body
  pub fit : All (λ (w : Bytes). length w ≤ buffer_size) writes

take-length : (n : ℕ) (xs : Bytes) → take (length (take n xs)) xs ≡ take n xs
take-length zero xs = refl
take-length (suc n) [] = refl
take-length (suc n) (x ∷ xs) = ap (◌∷◌ x) (take-length n xs)

no_bytes : (xs : Bytes) → length xs ≡ 0 → xs ≡ []
no_bytes [] h = refl
no_bytes (x ∷ xs) h = absurd (omega arith)

-- What one read of the loop does to the stream.
record After (s s' : DynamicMemoryStream) (bytes : Bytes) : Type 0 where
  valid : IsValid s'
  near : s'.p_size - s'.p_offset < u32_mod
  whole : left s ≡ bytes ++ left s'
  some_read : (length bytes ≡ 0) → left s ≡ []
  small : length bytes ≤ max_chunk_size

read-After :
    (s : DynamicMemoryStream)
    → IsValid s
    → s.p_size - s.p_offset < u32_mod
    → let (s', bytes) = Dynamic.read s max_chunk_size in After s s' bytes
read-After s v u =
    let (s', bytes) = Dynamic.read s max_chunk_size in
    let (b, o, c, v') = read_lem s max_chunk_size v u in
    let n = length-take max_chunk_size (left s) in
    let size : s'.p_size ≡ s.p_size =
      sym (length-contents s' v') ∙ ap length c ∙ length-contents s v in
    let rest : drop (length bytes) (left s) ≡ left s' =
      drop-drop (s.p_offset + length bytes) s.p_offset (length bytes) (contents s) refl
      ∙ ap₂ drop (sym o) (sym c) in
    let front : bytes ≡ take (length bytes) (left s) =
      b ∙ sym (take-length max_chunk_size (left s)) ∙ ap (λ t. take (length t) (left s)) (sym b) in
    record {
      valid = v';
      near = omega (arith, size, o, u);
      whole = sym (take-append-drop (length bytes) (left s)) ∙ ap₂ (◌++◌) (sym front) rest;
      some_read = λ h. no_bytes (left s) (omega (arith, n, ap length b, h));
      small = omega (arith, n, ap length b);
    }

last_write :
    (fuel : ℕ) (s s' : DynamicMemoryStream) (bytes buf buf' : Bytes)
    → After s s' bytes
    → length bytes ≡ 0
    → 0 < fuel
    → handle_write (sending s buf) ≡ (
      record { status_code = pos 200; image = kept_stream s' bytes; buffer = buf' },
      some (chunk_text bytes),
    )
    → Sent (suc fuel) (sending s buf) (left s)
unfolding flatten
last_write zero s s' bytes buf buf' a e f h = absurd (omega arith)
last_write (suc fuel) s s' [] buf buf' a e f h = record {
  writes = chunk_text [] ∷ [];
  all_sent =
      send_all-step (suc fuel) (sending s buf) _ (chunk_text []) [] h (send_all-none fuel buf');
  decoded = rw (a.some_read refl) (dechunk-last (suc fuel));
  fit = (omega (arith, length-chunk_text [] (omega arith)), tt);
}
last_write (suc fuel) s s' (x ∷ bytes) buf buf' a e f h = absurd (omega arith)

more_writes :
    (fuel : ℕ) (s s' : DynamicMemoryStream) (bytes buf buf' : Bytes)
    → After s s' bytes
    → 0 < length bytes
    → handle_write (sending s buf) ≡ (
      record { status_code = pos 200; image = kept_stream s' bytes; buffer = buf' },
      some (chunk_text bytes),
    )
    → Sent fuel (sending s' buf') (left s')
    → Sent (suc fuel) (sending s buf) (left s)
unfolding flatten
more_writes fuel s s' bytes buf buf' a p h r = record {
  writes = chunk_text bytes ∷ r.writes;
  all_sent =
      let kept : kept_stream s' bytes ≡ some s' =
        let filled : (length bytes == 0) ≡ false = ground arith in rw filled refl in
      send_all-step fuel (sending s buf) _ (chunk_text bytes) r.writes h (rw kept r.all_sent);
  decoded =
      rw a.whole
        (dechunk-more fuel bytes (flatten r.writes) (left s') p (omega (arith, a.small)) r.decoded);
  fit = (omega (arith, a.small, length-chunk_text bytes (omega (arith, a.small))), r.fit);
}

-- A valid stream under 4 GiB that a response with the code 200 sends from its position goes out
-- completely: with fuel for two more writes than there are bytes left the loop ends, every write fits into
-- the buffer, and a reader of chunked bodies gets exactly the bytes that were left from all of the writes.
pub send_all-Sent :
    (fuel : ℕ) (s : DynamicMemoryStream) (buf : Bytes)
    → IsValid s
    → s.p_size - s.p_offset < u32_mod
    → length buf ≡ buffer_size
    → length (left s) + 2 ≤ fuel
    → Sent fuel (sending s buf) (left s)
send_all-Sent zero s buf v u l f = absurd (omega arith)
send_all-Sent (suc fuel) s buf v u l f =
    let (s', bytes) = Dynamic.read s max_chunk_size in
    let a = read-After s v u in
    let (buf', l', h) = handle_write_lem s buf v u l in
    elim (dec_lt 0 (length bytes)) [
      | yes p ↦ more_writes fuel s s' bytes buf buf' a p h (
          send_all-Sent fuel s' buf' a.valid a.near l'
            (omega (arith, f, ap length a.whole, length-append bytes (left s'))))
      | no p ↦ last_write fuel s s' bytes buf buf' a (omega arith) (omega arith) h
    ]
