-- ===== src/Connection/Quiet.antt =====
-- At most one operation of a connection is under way, and it finds what it works on.
use image_proxy.Base.{
  ℕ, ◌+◌, ◌≤◌, ◌≡◌, ap, ◌∙◌, ◌⊎◌, inl, inr, not, ◌&&◌, Option, none, some, List, [], ◌∷◌, ◌++◌,
  arith, Bool-cases, length, drop, length-append, length-drop, Bytes,
}
use image_proxy.Base.Int.{ℤ}
use image_proxy.Dynamic.{
  DynamicMemoryStream, stream_size, size_mod, u32_mod, block_at, read_blocks, storage_read,
  overwrite, write_blocks, append_blocks, grow, write_rest, write_from, storage_write, init, read,
  write, seek_target, seek_to, seek, tell, copy_blocks, copy_to, MemoryStorage,
}
use image_proxy.Dynamic
use image_proxy.Response.{buffer_size, build_response, is_code}
use image_proxy.Connection.{
  Connection, begin, rewind, Operation, reads_request, resolves, connects, writes_request,
  reads_response, renders, writes_response,
}
use image_proxy.Response.Whole.{build_response-text}
use image_proxy.Connection.Answer.{send_response, fill, checked, checked_at}

-- The image is there, and what the server sends goes into it.
abbrev pub Feeding : Connection → Type 0
Feeding c = (h : ℕ) × (c.image ≡ some h) × (c.parser.content ≡ some h)

-- What the handler of an operation works on is there.
abbrev pub Ready : Connection → Operation → Type 0
Ready c reads_request = (h : ℕ) × (c.parser.content ≡ some h)
Ready c resolves = Feeding c
Ready c (connects k) = Feeding c
Ready c (writes_request text) = Feeding c
Ready c reads_response = Feeding c
Ready c (renders p) = (h : ℕ) × (c.image ≡ some h)
Ready c (writes_response text) = Unit

-- No operation is under way.
pub record IsQuiet (c : Connection) : Type 0 where
  pub whole : length c.buffer ≡ buffer_size
  pub none_pending : c.pending ≡ []

-- None or one operation is under way.
abbrev pub OnePending : Connection → Type 0
OnePending c = (c.pending ≡ []) ⊎ ((op : Operation) × (c.pending ≡ op ∷ []) × Ready c op)

-- None or one operation is under way, so no two of them use the buffer, which has its size.
pub record IsValid (c : Connection) : Type 0 where
  pub whole : length c.buffer ≡ buffer_size
  pub one_pending : (c.pending ≡ []) ⊎ ((op : Operation) × (c.pending ≡ op ∷ []) × Ready c op)

pub idle-IsValid : (c : Connection) → IsQuiet c → IsValid c
idle-IsValid c q = record { whole = q.whole; one_pending = inl q.none_pending }

pub begin-IsValid :
    (op : Operation) (c : Connection) → IsQuiet c → Ready (begin op c) op → IsValid (begin op c)
unfolding begin
begin-IsValid op c q r = record {
  whole = q.whole;
  one_pending = inr (op, ap (λ ops. ops ++ (op ∷ [])) q.none_pending, r);
}

length-overwrite :
    (buf text : Bytes)
    → length text ≤ length buf
    → length (Dynamic.overwrite buf 0 text) ≡ length buf
unfolding Dynamic.overwrite
length-overwrite buf text h =
    omega
      (arith, h, length-append text (drop (0 + length text) buf), length-drop (0 + length text) buf)

pub fill-IsQuiet :
    (text : Bytes) (c : Connection) → length text ≤ buffer_size → IsQuiet c → IsQuiet (fill text c)
unfolding fill
fill-IsQuiet text c h q = record {
  whole = length-overwrite c.buffer text (omega (arith, q.whole)) ∙ q.whole;
  none_pending = q.none_pending;
}

checked_at-IsQuiet :
    (code : ℤ) (image : Option ℕ) (c : Connection) → IsQuiet c → IsQuiet (checked_at code image c).1
unfolding checked_at rewind
checked_at-IsQuiet code none c q = q
checked_at-IsQuiet code (some h) c q = record { whole = q.whole; none_pending = q.none_pending }

checked-IsQuiet : (code : ℤ) (c : Connection) → IsQuiet c → IsQuiet (checked code c).1
unfolding checked
checked-IsQuiet code c q = elim (Bool-cases (is_code 200 code && not c.query.json)) [
  | inl image_wanted ↦ rw image_wanted (checked_at-IsQuiet code c.image c q)
  | inr e ↦ rw e (record { whole = q.whole; none_pending = q.none_pending })
]

pub send_response-IsValid :
    (pixfmts : List ℕ) (code : ℤ) (c : Connection)
    → IsQuiet c
    → IsValid (send_response pixfmts code c)
unfolding send_response
send_response-IsValid pixfmts code c q =
    let (code', c1) = checked code c in
    let q1 = checked-IsQuiet code c q in
    let text = build_response pixfmts code' c1.query.json c1.page in
    let short = (build_response-text pixfmts code' c1.query.json c1.page).1 in
    begin-IsValid (writes_response text) (fill text (record c1 { status_code = code' }))
      (fill-IsQuiet text (record c1 { status_code = code' }) (omega (arith, short))
        (record { whole = q1.whole; none_pending = q1.none_pending }))
      tt
