-- ===== src/Connection/Image.antt =====
-- An image that was rendered reaches the client.
use image_proxy.Base.{
  ℕ, suc, ◌+◌, ◌≤◌, ◌<◌, ◌≡◌, sym, ap, ap₂, ◌∙◌, false, not, none, some, List, [], ◌∷◌, ◌++◌,
  flatten, arith, ◌==◌, if◌then◌else◌, length, All, Bytes,
}
use image_proxy.Base.Int.{ℤ, pos}
use image_proxy.Dynamic.{
  DynamicMemoryStream, stream_size, size_mod, block_at, read_blocks, storage_read, overwrite,
  write_blocks, append_blocks, grow, write_rest, write_from, storage_write, init, read, write,
  seek_target, seek_to, seek, tell, copy_blocks, copy_to, MemoryStorage,
}
use image_proxy.Dynamic
use image_proxy.Response.{buffer_size, build_response, is_code}
use image_proxy.Connection.{Connection, begin, rewind, writes_response}
use image_proxy.Dynamic.{u32_mod}
use image_proxy.Dynamic.State.{
  contents, length-contents, init-IsValid, read_blocks-count, times_mono, storage_read-count,
  storage_read_lem, IsValid,
}
use image_proxy.Dynamic.State
use image_proxy.Chunk.{send_all}
use image_proxy.Chunk.Codec.{dechunk}
use image_proxy.Chunk.Stream.{send_all-Sent, sending}
use image_proxy.Response.Whole.{response_text, build_response-text}
use image_proxy.Connection.Answer.{
  send_response, checked, fill, image_stream, stream_at, checked_at,
}
use image_proxy.Connection.Quiet.{IsQuiet, fill-IsQuiet}
use image_proxy.Connection.Redirects.{rewound, update_self}
use image_proxy.Connection.Delivery.{deliver, deliver-some, send_all-deliver, Sends, view}

-- The stream at its start.
abbrev at_start : DynamicMemoryStream → DynamicMemoryStream
at_start s = record s { p_offset = 0 }

at_start-IsValid : (s : DynamicMemoryStream) → State.IsValid s → State.IsValid (at_start s)
at_start-IsValid s v = record {
  positive = v.positive;
  full = v.full;
  offset_in = omega arith;
  covered = v.covered;
  tight = v.tight;
  in_memory = v.in_memory;
}

rewound_stream : (h : ℕ) (c : Connection) → (rewind h c).store h ≡ at_start (c.store h)
unfolding rewind
rewound_stream h c =
    update_self c.store h ((Dynamic.seek (c.store h) (pos 0) 0).0) ∙ rewound (c.store h)

not_empty : (s : DynamicMemoryStream) → 0 < s.p_size → (stream_size (at_start s) == 0) ≡ false
unfolding stream_size
not_empty s p = ground arith

checked-image :
    (h : ℕ) (c : Connection)
    → c.image ≡ some h
    → c.query.json ≡ false
    → 0 < (c.store h).p_size
    → checked (pos 200) c ≡ (pos 200, rewind h c)
unfolding checked checked_at is_code
checked-image h c i j p =
    let filled : (stream_size ((rewind h c).store h) == 0) ≡ false =
      ap (λ s. stream_size s == 0) (rewound_stream h c) ∙ not_empty (c.store h) p in
    ap (λ b. if not b then checked_at (pos 200) c.image c else (pos 200, record c { image = none }))
      j
    ∙ ap (λ o. checked_at (pos 200) o c) i
    ∙ ap (λ b. (if b then pos 500 else pos 200, rewind h c)) filled

-- What the client gets for an image.
pub record Delivered (pixfmts : List ℕ) (fuel : ℕ) (c : Connection) (image_bytes : Bytes)
    : Type 0 where
  pub chunks : List Bytes
  pub all_sent :
      deliver (suc fuel) (send_response pixfmts (pos 200) c)
      ≡ some (response_text pixfmts (pos 200) false c.page ∷ chunks)
  pub decoded : dechunk fuel (flatten chunks) ≡ some image_bytes
  pub fit : All (λ (w : Bytes). length w ≤ buffer_size) chunks

-- The response in the buffer, and its write under way.
answered : List ℕ → ℤ × Connection → Connection
answered pixfmts (code, c) =
    let text = build_response pixfmts code c.query.json c.page in
    begin (writes_response text) (fill text (record c { status_code = code }))

answered-first :
    (pixfmts : List ℕ) (c : Connection)
    → c.query.json ≡ false
    → c.pending ≡ []
    → (answered pixfmts (pos 200, c)).pending
      ≡ writes_response (response_text pixfmts (pos 200) false c.page) ∷ []
unfolding answered begin fill
answered-first pixfmts c j q =
    ap₂ (λ ops text. ops ++ (writes_response text ∷ [])) q
      (ap (λ b. build_response pixfmts (pos 200) b c.page) j
        ∙ (build_response-text pixfmts (pos 200) false c.page).0)

-- An image in a valid stream that is neither empty nor of 4 GiB or more, and a query that is not for
-- JSON: while the writes succeed, the writes that `SendResponse` with the code 200 and its handler make
-- come to an end within three more than there are bytes. The first is the whole head of the response; a
-- reader of chunked bodies gets from the others exactly the contents of the image, wherever the
-- stream's position was, and none of them is larger than the buffer.
pub send_response-Delivered :
    (pixfmts : List ℕ) (fuel h : ℕ) (c : Connection)
    → IsQuiet c
    → c.image ≡ some h
    → c.query.json ≡ false
    → State.IsValid (c.store h)
    → 0 < (c.store h).p_size
    → (c.store h).p_size < u32_mod
    → (c.store h).p_size + 2 ≤ fuel
    → Delivered pixfmts fuel c (contents (c.store h))
unfolding send_response answered begin fill rewind contents Sends image_stream stream_at
send_response-Delivered pixfmts fuel h c q i j v p u f =
    let c1 = record (rewind h c) { status_code = pos 200 } in
    let text = build_response pixfmts (pos 200) c1.query.json c1.page in
    let d = fill text c1 in
    let short = (build_response-text pixfmts (pos 200) c1.query.json c1.page).1 in
    let s0 = at_start (c.store h) in
    let seen : view d ≡ sending s0 d.buffer =
      ap (λ o. record { status_code = pos 200; image = o; buffer = d.buffer })
        (ap (λ o. stream_at o (rewind h c).store) i ∙ ap some (rewound_stream h c)) in
    let whole =
      (fill-IsQuiet text c1 (omega (arith, short))
        (record { whole = q.whole; none_pending = q.none_pending })).whole in
    let sent =
      send_all-Sent fuel s0 d.buffer (at_start-IsValid (c.store h) v) (omega arith) whole
        (omega (arith, State.length-contents s0 (at_start-IsValid (c.store h) v), f)) in
    record {
      chunks = sent.writes;
      all_sent =
          ap (λ r. deliver (suc fuel) (answered pixfmts r)) (checked-image h c i j p)
          ∙ deliver-some fuel (begin (writes_response text) d) d
              (response_text pixfmts (pos 200) false c.page) sent.writes
              (answered-first pixfmts (rewind h c) j q.none_pending)
              (ap (λ ops. record d { pending = ops }) (sym q.none_pending))
              (send_all-deliver fuel d sent.writes q.none_pending
                (ap (send_all fuel) seen ∙ sent.all_sent));
      decoded = sent.decoded;
      fit = sent.fit;
    }
