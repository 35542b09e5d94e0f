-- ===== src/Connection/Delivery.antt =====
-- A whole image response: `SendResponse` and the writes that follow it.
use image_proxy.Base.{
  ℕ, zero, suc, ◌≡◌, refl, sym, ap, subst, ◌∙◌, ◌⊎◌, inl, inr, Option, none, some, List, [], ◌∷◌,
  ◌++◌, Bool-cases, Option-cases, Bytes,
}
use image_proxy.Dynamic.{DynamicMemoryStream}
use image_proxy.Http.{update}
use image_proxy.Response.{is_code}
use image_proxy.Chunk.{prepend, Sending, handle_write}
use image_proxy.Connection.{Connection, begin, Operation, success, writes_response}
use image_proxy.Chunk.{prepend, send_all, write_next}
use image_proxy.Connection.Answer.{
  stream_at, handle_write_response, image_stream, put_back, store_at, write_chunk,
}
use image_proxy.Connection.Failing.{store_at-pending}
use image_proxy.Chunk.Stream.{send_all-last, send_all-more}
use image_proxy.Connection.Redirects.{update_self}

-- The text of the write that is under way.
unfoldable pub due : List Operation → Option Bytes
due (writes_response text ∷ []) = some text
due ops = none

-- The writes to the client, one after the other, while each succeeds, on fuel.
unfoldable pub deliver : ℕ → Connection → Option (List Bytes)
deliver zero c = none
deliver (suc fuel) c = elim (due c.pending) [
  | none ↦ some []
  | some text ↦
      prepend text (deliver fuel (handle_write_response success (record c { pending = [] })))
]

-- What the loop over the chunks sees of a connection.
abbrev pub view : Connection → Sending
view c = record { status_code = c.status_code; image = image_stream c; buffer = c.buffer }

deliver-none : (fuel : ℕ) (c : Connection) → c.pending ≡ [] → deliver (suc fuel) c ≡ some []
unfolding deliver due
deliver-none fuel c e = rw (deliver, e) refl

pub deliver-some :
    (fuel : ℕ) (c d : Connection) (text : Bytes) (texts : List Bytes)
    → c.pending ≡ writes_response text ∷ []
    → record c { pending = [] } ≡ d
    → deliver fuel (handle_write_response success d) ≡ some texts
    → deliver (suc fuel) c ≡ some (text ∷ texts)
unfolding deliver due prepend
deliver-some fuel c d text texts e g h = rw (deliver, e, g, h) refl

put_back-pending :
    (c : Connection) (s : Option DynamicMemoryStream) → (put_back c s).pending ≡ c.pending
unfolding put_back
put_back-pending c none = refl
put_back-pending c (some s) = store_at-pending c.image s c

-- After a chunk the loop over the chunks goes on where the connection does.
after_chunk : Connection → Sending → Connection
after_chunk c s = put_back (record c { buffer = s.buffer }) s.image

image_stream-store_at :
    (c : Connection) (h : Option ℕ) (i : ℕ) (s : DynamicMemoryStream)
    → c.image ≡ h
    → h ≡ some i
    → image_stream (store_at h s c) ≡ some s
unfolding image_stream store_at stream_at
image_stream-store_at c none i s e g = absurd cc
image_stream-store_at c (some h) i s e g =
    ap (λ o. stream_at o (update c.store h s)) e ∙ ap some (update_self c.store h s)

view-store_at :
    (c : Connection) (h : Option ℕ) (i : ℕ) (s : DynamicMemoryStream)
    → c.image ≡ h
    → h ≡ some i
    → view (store_at h s c)
      ≡ record { status_code = c.status_code; image = some s; buffer = c.buffer }
unfolding store_at
view-store_at c none i s e g = absurd cc
view-store_at c (some h) i s e g =
    ap (λ o. record { status_code = c.status_code; image = o; buffer = c.buffer })
      (image_stream-store_at c (some h) i s e g)

view-put_back :
    (c : Connection) (h : ℕ) (buf : Bytes) (s : Option DynamicMemoryStream)
    → c.image ≡ some h
    → view (put_back (record c { buffer = buf }) s)
      ≡ record { status_code = c.status_code; image = s; buffer = buf }
unfolding put_back image_stream stream_at
view-put_back c h buf none e = refl
view-put_back c h buf (some s) e = view-store_at (record c { buffer = buf }) c.image h s refl e

-- Where there is a chunk, the loop's next state is the connection's.
abbrev Follows : Connection → Sending × Option Bytes → Type 0
Follows c (s, chunk) = (chunk ≡ none) ⊎ (view (after_chunk c s) ≡ s)

write_next-Follows :
    (c : Connection) (h : ℕ) → c.image ≡ some h → Follows c (write_next (view c) (some (c.store h)))
unfolding write_next after_chunk
write_next-Follows c h e = elim (Bool-cases (is_code 200 c.status_code)) [
  | inl done ↦ rw done (inr (view-put_back c h _ _ e))
  | inr other ↦ rw other (inl refl)
]

handle_write-Follows : (c : Connection) → Follows c (handle_write (view c))
unfolding handle_write image_stream stream_at write_next
handle_write-Follows c = elim (Option-cases c.image) [
  | inl e ↦ subst (λ o. Follows c (write_next (view c) (stream_at o c.store))) (sym e) (inl refl)
  | inr (h, e) ↦
      subst (λ o. Follows c (write_next (view c) (stream_at o c.store))) (sym e)
        (write_next-Follows c h e)
]

prepend-some :
    (x : Bytes) (o : Option (List Bytes)) (ws : List Bytes)
    → prepend x o ≡ some ws
    → (xs : List Bytes) × (o ≡ some xs) × (x ∷ xs ≡ ws)
unfolding prepend
prepend-some x none ws e = absurd cc
prepend-some x (some xs) ws e = (xs, refl, cc)

after_chunk-pending : (c : Connection) (s : Sending) → (after_chunk c s).pending ≡ c.pending
unfolding after_chunk put_back store_at
after_chunk-pending c s = put_back-pending (record c { buffer = s.buffer }) s.image

-- What the connection sends from a state on, by the same from the next state on.
unfoldable pub Sends : ℕ → Type 0
Sends fuel =
    (d : Connection) (xs : List Bytes)
    → d.pending ≡ []
    → send_all fuel (view d) ≡ some xs
    → deliver fuel (handle_write_response success d) ≡ some xs

next-deliver :
    (fuel : ℕ) (c : Connection) (s : Sending) (chunk : Option Bytes) (ws : List Bytes)
    → c.pending ≡ []
    → handle_write (view c) ≡ (s, chunk)
    → Follows c (s, chunk)
    → send_all (suc fuel) (view c) ≡ some ws
    → Sends fuel
    → deliver (suc fuel) (write_chunk c (s, chunk)) ≡ some ws
unfolding write_chunk begin after_chunk Sends
next-deliver fuel c s none ws q e f h again =
    deliver-none fuel c q ∙ sym (send_all-last fuel (view c) s e) ∙ h
next-deliver fuel c s (some x) ws q e (inl f) h again = absurd cc
next-deliver fuel c s (some x) ws q e (inr f) h again =
    let d = after_chunk c s in
    let d_quiet : d.pending ≡ [] = after_chunk-pending c s ∙ q in
    let (xs, rest, same) =
      prepend-some x (send_all fuel s) ws (sym (send_all-more fuel (view c) s x e) ∙ h) in
    deliver-some fuel (begin (writes_response x) d) d x xs
      (ap (λ ops. ops ++ (writes_response x ∷ [])) d_quiet)
      (ap (λ ops. record d { pending = ops }) (sym d_quiet))
      (again d xs d_quiet (ap (send_all fuel) f ∙ rest))
    ∙ ap some same

pub send_all-deliver : (fuel : ℕ) → Sends fuel
unfolding Sends send_all handle_write_response
send_all-deliver zero d xs q h = absurd cc
send_all-deliver (suc fuel) d xs q h =
    let (s, chunk) = handle_write (view d) in
    next-deliver fuel d s chunk xs q refl (handle_write-Follows d) h (send_all-deliver fuel)
