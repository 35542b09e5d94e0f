-- ===== src/Connection/Reach.antt =====
-- The states that a connection can reach, and the invariant in them.
use image_proxy.Base.{
  ℕ, ◌≤◌, ◌≡◌, refl, sym, ap, subst, ◌∙◌, inl, inr, some, List, [], ◌∷◌, ◌++◌, arith, length,
  length-append, Bytes,
}
use image_proxy.Cache.{ImageCache}
use image_proxy.TaskPool.{System}
use image_proxy.Http.{Store}
use image_proxy.Response.{buffer_size}
use image_proxy.Connection.{
  Library, Connection, begin, new_stream, Operation, Completion, reads_request, resolves, connects,
  writes_request, reads_response, renders, writes_response,
}
use image_proxy.Connection.{start, new_connection}
use image_proxy.Connection.Handlers.{handle}
use image_proxy.Connection.Quiet.{IsValid, Ready, OnePending}
use image_proxy.Connection.Ends.{Handled, handle-Handled}

-- What an operation works on is in the image and the parser.
same_image-Ready :
    (c c' : Connection) (op : Operation)
    → c'.image ≡ c.image
    → c'.parser ≡ c.parser
    → Ready c op
    → Ready c' op
same_image-Ready c c' reads_request i p (h, f) = (h, ap (λ x. x.content) p ∙ f)
same_image-Ready c c' resolves i p (h, e, f) = (h, i ∙ e, ap (λ x. x.content) p ∙ f)
same_image-Ready c c' (connects k) i p (h, e, f) = (h, i ∙ e, ap (λ x. x.content) p ∙ f)
same_image-Ready c c' (writes_request text) i p (h, e, f) = (h, i ∙ e, ap (λ x. x.content) p ∙ f)
same_image-Ready c c' reads_response i p (h, e, f) = (h, i ∙ e, ap (λ x. x.content) p ∙ f)
same_image-Ready c c' (renders leaf) i p (h, e) = (h, i ∙ e)
same_image-Ready c c' (writes_response text) i p r = tt

module _ (lib : Library) where
  -- The states of a connection: it starts; the other connections and the threads change what is shared;
  -- one of its operations ends, and the handler runs. A read gives at most the buffer's size.
  pub data Reach : Connection → Type 0 where
    starts :
        (store : Store) (next : ℕ) (cache : ImageCache) (pool : System) (self : ℕ)
        (host port buffer : Bytes) (invalid_pixfmt : ℕ)
        → length buffer ≡ buffer_size
        → Reach (start (new_connection store next cache pool self host port buffer invalid_pixfmt))
    shares :
        (c : Connection) (store : Store) (next : ℕ) (cache : ImageCache) (pool : System)
        → Reach c
        → Reach (record c { store = store; next = next; cache = cache; pool = pool })
    ends :
        (c c' : Connection) (before after : List Operation) (op : Operation) (e : Completion)
        → Reach c
        → c.pending ≡ before ++ (op ∷ after)
        → length e.received ≤ buffer_size
        → handle lib op e (record c { pending = before ++ after }) ≡ some c'
        → Reach c'

  one_element :
      (op op' : Operation) (before after : List Operation)
      → before ++ (op ∷ after) ≡ op' ∷ []
      → (before ++ after ≡ []) × (op ≡ op')
  one_element op op' [] after h = (cc, cc)
  one_element op op' (b ∷ before) after h =
      absurd (omega (arith, ap length h, length-append before (op ∷ after)))

  -- In a state with the invariant any operation that is under way may end.
  ends-Handled :
      (c : Connection) (before after : List Operation) (op : Operation) (e : Completion)
      → IsValid c
      → c.pending ≡ before ++ (op ∷ after)
      → length e.received ≤ buffer_size
      → Handled lib op e (record c { pending = before ++ after })
  ends-Handled c before after op e v p l = elim v.one_pending [
    | inl idle ↦ absurd (omega (arith, ap length (sym p ∙ idle), length-append before (op ∷ after)))
    | inr (op', one, r) ↦
        let (rest, same) = one_element op op' before after (sym p ∙ one) in
        handle-Handled lib op e (record c { pending = before ++ after }) l
          (same_image-Ready c (record c { pending = before ++ after }) op refl refl
            (subst (Ready c) (sym same) r))
          (record { whole = v.whole; none_pending = rest })
  ]

  fine-IsValid :
      (op : Operation) (e : Completion) (c c' : Connection)
      → Handled lib op e c
      → handle lib op e c ≡ some c'
      → IsValid c'
  fine-IsValid op e c c' (inl (d, h, v)) g = let same : d ≡ c' = cc in subst IsValid same v
  fine-IsValid op e c c' (inr (r, none_left, u)) g = absurd cc

  shared_pending :
      (d : Connection) (store : Store) (next : ℕ) (cache : ImageCache) (pool : System)
      → OnePending d
      → OnePending (record d { store = store; next = next; cache = cache; pool = pool })
  shared_pending d store next cache pool (inl idle) = inl idle
  shared_pending d store next cache pool (inr (op, one, r)) = inr (
    op,
    one,
    same_image-Ready d (record d { store = store; next = next; cache = cache; pool = pool }) op refl
        refl r,
  )

  -- Whatever the clients, the servers, the plugins and the threads do, and however their steps
  -- interleave, at most one operation of a connection is under way, the buffer has its size, and while
  -- the server is looked up, connected, written to or read from, there is an image and the parser's content
  -- goes into it.
  pub Reach-IsValid : (c : Connection) → Reach c → IsValid c
  unfolding start new_connection new_stream begin
  Reach-IsValid c (starts store next cache pool self host port buffer pf l) = record {
    whole = l;
    one_pending = inr (reads_request, refl, (next, refl));
  }
  Reach-IsValid c (shares d store next cache pool r) =
      let v = Reach-IsValid d r in
      record { whole = v.whole; one_pending = shared_pending d store next cache pool v.one_pending }
  Reach-IsValid c (ends d c' before after op e r p l h) =
      fine-IsValid op e (record d { pending = before ++ after }) c
        (ends-Handled d before after op e (Reach-IsValid d r) p l) h

  -- In every state that a connection can reach and for each operation under way there, however it ends
  -- (a read with at most as many bytes as the buffer has), the handler runs to its end without a null
  -- pointer and leaves the state valid. There is one exception: where the read of the client's request
  -- makes `GetQuery` undefined, the handler is so too.
  pub Reach-Handled :
      (c : Connection) (before after : List Operation) (op : Operation) (e : Completion)
      → Reach c
      → c.pending ≡ before ++ (op ∷ after)
      → length e.received ≤ buffer_size
      → Handled lib op e (record c { pending = before ++ after })
  Reach-Handled c before after op e r p l = ends-Handled c before after op e (Reach-IsValid c r) p l
