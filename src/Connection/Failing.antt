-- ===== src/Connection/Failing.antt =====
-- What the handlers do about errors, and when no answer is sent.
use image_proxy.Base.{
  ℕ, ◌≡◌, refl, ap, ap₂, ◌∙◌, inl, inr, Bool, true, false, not, ◌&&◌, Option, none, some, List, [],
  ◌∷◌, ◌++◌, append-nil, Bool-cases, Option-cases, Bytes,
}
use image_proxy.Base.Int.{ℤ, pos}
use image_proxy.Dynamic.{DynamicMemoryStream}
use image_proxy.Cache.{
  ImageCache, Lock, Value, Map, find, insert, assign, tail, push, gives_up, search_map, get, put,
  Reply, step, run, Call,
}
use image_proxy.Cache
use image_proxy.TaskPool.{add_task}
use image_proxy.Http.{update}
use image_proxy.Response.{Page, build_response, is_code, crlf}
use image_proxy.Connection.{
  Library, Connection, begin, rewind, new_stream, Leaf, Operation, renders, writes_response,
}
use image_proxy.Connection.Answer.{send_response, fill, checked, store_at, checked_at}
use image_proxy.Connection.Send.{send_image, size_to_query, render, show_page}
use image_proxy.Response.Whole.{status_line, given, build_response-text, status_line, given}

-- The text of an answer without headers.
abbrev pub bare_response : ℤ → Bytes
bare_response code = status_line code ++ crlf

-- A handler that starts nothing.
abbrev pub Stops : Option Connection → Type 0
Stops r = (c : Connection) × (r ≡ some c) × (c.pending ≡ [])

pub store_at-pending :
    (h : Option ℕ) (s : DynamicMemoryStream) (c : Connection) → (store_at h s c).pending ≡ c.pending
unfolding store_at
store_at-pending none s c = refl
store_at-pending (some h) s c = refl

checked-json :
    (code : ℤ) (c : Connection)
    → is_code 200 code ≡ false
    → checked code c ≡ (code, record c { image = none })
unfolding checked
checked-json code c e = rw e refl

bare_response-text :
    (pixfmts : List ℕ) (code : ℤ) (json : Bool) (page : Page)
    → is_code 200 code ≡ false
    → build_response pixfmts code json page ≡ bare_response code
unfolding given
bare_response-text pixfmts code json page e =
    (build_response-text pixfmts code json page).0
    ∙ rw e (append-nil _ ∙ ap (λ t. t ++ crlf) (append-nil (status_line code)))

-- One operation is under way.
abbrev pub Started : Connection → Type 0
Started c = (op : Operation) × (c.pending ≡ op ∷ [])

begin-Started : (op : Operation) (c : Connection) → c.pending ≡ [] → Started (begin op c)
unfolding begin
begin-Started op c q = (op, ap (λ ops. ops ++ (op ∷ [])) q)

checked-pending : (code : ℤ) (c : Connection) → (checked code c).1.pending ≡ c.pending
unfolding checked checked_at rewind
checked-pending code c = elim (Bool-cases (is_code 200 code && not c.query.json)) [
  | inl image_wanted ↦ elim (Option-cases c.image) [
    | inl e ↦ rw (image_wanted, e) refl
    | inr (h, e) ↦ rw (image_wanted, e) refl
  ]
  | inr e ↦ rw e refl
]

send_response-Started :
    (pixfmts : List ℕ) (code : ℤ) (c : Connection)
    → c.pending ≡ []
    → Started (send_response pixfmts code c)
unfolding send_response fill
send_response-Started pixfmts code c q =
    let (code', c1) = checked code c in
    let text = build_response pixfmts code' c1.query.json c1.page in
    begin-Started (writes_response text) (fill text (record c1 { status_code = code' }))
      (checked-pending code c ∙ q)

-- An answer with another code than 200.
pub send_response-bare :
    (pixfmts : List ℕ) (code : ℤ) (c : Connection)
    → is_code 200 code ≡ false
    → c.pending ≡ []
    → (send_response pixfmts code c).pending ≡ writes_response (bare_response code) ∷ []
unfolding send_response begin fill
send_response-bare pixfmts code c e q = rw (checked-json code c e) (
    ap₂ (λ ops text. ops ++ (writes_response text ∷ [])) q
      (bare_response-text pixfmts code c.query.json c.page e))

rewind-pending : (h : ℕ) (c : Connection) → (rewind h c).pending ≡ c.pending
unfolding rewind
rewind-pending h c = refl

module _ (lib : Library) where
  render-Started : (p : Leaf) (c : Connection) → c.pending ≡ [] → Started (render lib p c)
  unfolding render new_stream
  render-Started p c q =
      let c1 = record (new_stream c) { image = some c.next } in
      let out =
        add_task c1.pool
          (record { connection = some c.self; page = some c.next; out = some c.next }) in
      elim (Bool-cases out.1) [
        | inl e ↦ rw e (begin-Started (renders p) (record c1 { pool = out.0 }) q)
        | inr e ↦ rw e (send_response-Started lib.pixfmts (pos 500) (record c1 { pool = out.0 }) q)
      ]

  show_page-Started : (p : Leaf) (c : Connection) → c.pending ≡ [] → Started (show_page lib p c)
  unfolding show_page
  show_page-Started p c q = elim (Bool-cases c.query.json) [
    | inl e ↦ simp e (send_response-Started lib.pixfmts (pos 200) _ q)
    | inr e ↦ simp e (render-Started (size_to_query lib c.query p) c q)
  ]

  -- What `SendPage` leaves under way: nothing for a document without a page, else one operation.
  abbrev pub Shown : Bool → Bool → Connection → Type 0
  Shown true false c = c.pending ≡ []
  Shown true true c = Started c
  Shown false has c = c.pending ≡ writes_response (bare_response (pos 500)) ∷ []

  -- When `SendPage` runs for an image and no operation is under way, there are three cases: a document that
  -- does not load is answered with the code 500; for a document with a page 0 one operation is
  -- started; and for a document without one none is, so that the client gets no answer.
  pub send_image-Shown :
      (lock : Lock) (h : ℕ) (c : Connection)
      → c.pending ≡ []
      → let (s, loaded) = lib.load_doc ((rewind h c).store h) in
        Shown loaded (lib.has_page s) (send_image lib lock h c)
  unfolding send_image is_code
  send_image-Shown lock h c q =
      let (s, loaded) = lib.load_doc ((rewind h c).store h) in
      let c1 = record (rewind h c) { store = update (rewind h c).store h s } in
      let q1 : c1.pending ≡ [] = rewind-pending h c ∙ q in
      elim (Bool-cases loaded) [
        | inl e ↦ rw e (elim (Bool-cases (lib.has_page s)) [
          | inl has ↦ rw has (
              show_page-Started (record { document = s; sizings = [] })
                (record c1 { cache = Cache.put c1.cache lock c1.image_path (some h) }) q1)
          | inr lacks ↦ rw lacks q1
        ])
        | inr e ↦ rw e (send_response-bare lib.pixfmts (pos 500) c1 refl q1)
      ]
