-- ===== src/Jpeg/Picture.antt =====
-- What the page draws, and the compressor as its manual describes it.
use image_proxy.Base.{
  ℕ, zero, suc, ◌+◌, ◌*◌, ◌≤◌, ◌<◌, ◌≡◌, refl, sym, ap, ap₂, ◌∙◌, true, false, ◌||◌, none, some,
  List, [], ◌∷◌, ◌++◌, arith, ltb, length, set, take, drop, length-append, length-take, length-drop,
  drop-drop, take-take, drop-take, take-all, take-append_le, drop-append_le, drop-append_add, Bytes,
}
use image_proxy.Dynamic
use image_proxy.Jpeg.{
  Outcome, returned, thrown, undefined, Library, Device, init, sweep_scanline, render,
}

-- The rows of a picture in a memory: `k` rows of `st` bytes.
unfoldable pub cut : ℕ → ℕ → Bytes → List Bytes
cut zero st m = []
cut (suc k) st m = take st m ∷ cut k st (drop st m)

-- The rows of a picture, once some are drawn, each at its place.
unfoldable pub paint : List (ℕ × Bytes) → List Bytes → List Bytes
paint [] rows = rows
paint ((y, row) ∷ drawn) rows = paint drawn (set rows y row)

-- Rows from the top.
unfoldable pub numbered : ℕ → List Bytes → List (ℕ × Bytes)
numbered y [] = []
numbered y (row ∷ rows) = (y, row) ∷ numbered (y + 1) rows

-- The page draws a row where the device told it to.
unfoldable pub draw_row {ℓ} : {C : Type ℓ} → Device C → ℕ → Bytes → Device C
draw_row d offset row = record d {
  scanline_buf = record d.scanline_buf {
    memory = Dynamic.overwrite d.scanline_buf.memory offset row;
  };
}

-- The compressor from `start_compress` on: it takes the rows one at a time, up to the height, and
-- its end comes with the last. It has a greatest size.
pub record Compressor {ℓ} {C : Type ℓ} (lib : Library C) (greatest : ℕ) : Type ℓ where
  pub lines : C → List Bytes
  pub lines_due : C → ℕ
  pub starts :
      (c : C) (w h n : ℕ)
      → 0 < w
      → w ≤ greatest
      → 0 < h
      → h ≤ greatest
      → (c1 : C) × (lib.start_compress c w h n ≡ some c1)
        × (lib.next_scanline c1 ≡ 0)
        × (lines c1 ≡ [])
        × (lines_due c1 ≡ h)
  pub writes :
      (c : C) (row : Bytes)
      → lib.next_scanline c < lines_due c
      → (c1 : C) × (lib.write_scanline c row ≡ some (c1, 1))
        × (lib.next_scanline c1 ≡ lib.next_scanline c + 1)
        × (lines c1 ≡ lines c ++ (row ∷ []))
        × (lines_due c1 ≡ lines_due c)
  pub finishes :
      (c : C)
      → lib.next_scanline c ≡ lines_due c
      → (c1 : C) × (lib.finish_compress c ≡ some c1) × (lines c1 ≡ lines c)

pub length-cut : (k st : ℕ) (m : Bytes) → length (cut k st m) ≡ k
unfolding cut
length-cut zero st m = refl
length-cut (suc k) st m = ap suc (length-cut k st (drop st m))

-- A row drawn over another.
pub length-overwrite :
    (m : Bytes) (at : ℕ) (row : Bytes)
    → at + length row ≤ length m
    → length (Dynamic.overwrite m at row) ≡ length m
unfolding Dynamic.overwrite
length-overwrite m at row h = omega (
  arith,
  length-append (take at m) (row ++ drop (at + length row) m),
  length-append row (drop (at + length row) m),
  length-take at m,
  length-drop (at + length row) m,
)

pub take-overwrite_first :
    (m row : Bytes) (n : ℕ) → n ≡ length row → take n (Dynamic.overwrite m 0 row) ≡ row
unfolding Dynamic.overwrite
take-overwrite_first m row n e =
    take-append_le n row (drop (0 + length row) m) (omega (arith, e))
    ∙ take-all n row (omega (arith, e))

drop-overwrite_first :
    (m row : Bytes) (n : ℕ) → n ≡ length row → drop n (Dynamic.overwrite m 0 row) ≡ drop n m
unfolding Dynamic.overwrite
drop-overwrite_first m row n e =
    drop-append_add n 0 row (drop (0 + length row) m) (omega (arith, e))
    ∙ ap (λ k. drop k m) (omega (arith, e))

take-overwrite_behind :
    (m row : Bytes) (n at : ℕ)
    → n ≤ at
    → at ≤ length m
    → take n (Dynamic.overwrite m at row) ≡ take n m
unfolding Dynamic.overwrite
take-overwrite_behind m row n at h l =
    take-append_le n (take at m) _ (omega (arith, length-take at m)) ∙ take-take at n m h

drop-overwrite_behind :
    (m row : Bytes) (n k at : ℕ)
    → at ≡ n + k
    → at ≤ length m
    → drop n (Dynamic.overwrite m at row) ≡ Dynamic.overwrite (drop n m) k row
unfolding Dynamic.overwrite
drop-overwrite_behind m row n k at e l =
    drop-append_le n (take at m) _ (omega (arith, length-take at m))
    ∙ ap₂ (λ x y. x ++ (row ++ y)) (drop-take n at k m e)
        (sym (drop-drop (at + length row) n (k + length row) m (omega arith)))

-- A row drawn at its place in the memory is that row of the picture.
pub cut-overwrite :
    (k st y : ℕ) (m row : Bytes)
    → y < k
    → length row ≡ st
    → k * st ≤ length m
    → cut k st (Dynamic.overwrite m (y * st) row) ≡ set (cut k st m) y row
unfolding cut
cut-overwrite zero st y m row h e l = absurd (omega arith)
cut-overwrite (suc k) st zero m row h e l =
    let none_in_front : 0 * st ≡ 0 = omega arith in
    rw none_in_front (
      ap₂ (λ x y. x ∷ y) (take-overwrite_first m row st (sym e))
        (ap (cut k st) (drop-overwrite_first m row st (sym e))))
cut-overwrite (suc k) st (suc y) m row h e l =
    let at : suc y * st ≡ st + y * st = grind arith in
    let all_rows : suc k * st ≡ st + k * st = grind arith in
    let below : suc y * st ≤ length m = grind arith in
    let left : k * st ≤ length (drop st m) = omega (arith, length-drop st m, all_rows, l) in
    ap₂ (λ x y. x ∷ y) (take-overwrite_behind m row st (suc y * st) (omega (arith, at)) below)
      (ap (cut k st) (drop-overwrite_behind m row st (y * st) (suc y * st) at below)
        ∙ cut-overwrite k st y (drop st m) row (omega arith) e left)

module _ {ℓ} {C : Type ℓ} (lib : Library C) (stride : ℕ → ℕ → ℕ) (raw : ℕ) where
  -- A page draws rows one after the other: it asks for a row's place and draws there.
  unfoldable pub draw_page : List (ℕ × Bytes) → Device C → Outcome (Device C)
  draw_page [] d = returned d
  draw_page ((y, row) ∷ rest) d = elim (sweep_scanline lib stride raw d y true) [
    | returned (d1, some offset) ↦ draw_page rest (draw_row d1 offset row)
    | returned (d1, none) ↦ draw_page rest d1
    | thrown ↦ thrown
    | undefined ↦ undefined
  ]

  -- The rows, and `Render` behind them.
  unfoldable pub draw : List (ℕ × Bytes) → Device C → Outcome (Device C)
  draw rows d = elim (draw_page rows d) [
    | returned d1 ↦ render lib stride raw d1
    | thrown ↦ thrown
    | undefined ↦ undefined
  ]

  pub draw_step :
      (d d1 : Device C) (y offset : ℕ) (row : Bytes) (rest : List (ℕ × Bytes))
      → sweep_scanline lib stride raw d y true ≡ returned (d1, some offset)
      → draw ((y, row) ∷ rest) d ≡ draw rest (draw_row d1 offset row)
  unfolding draw draw_page
  draw_step d d1 y offset row rest e = rw (draw, draw_page, e) refl

-- A device with a viewport that the compressor takes, before its first row.
pub record IsReady {ℓ} {C : Type ℓ} (stride : ℕ → ℕ → ℕ) (greatest : ℕ) (d : Device C)
    : Type 0 where
  pub idle : d.initialized ≡ false
  pub no_row : d.write_scanline ≡ false
  pub not_flipped : d.flip ≡ false
  pub wide : 0 < d.width
  pub width_held : d.width ≤ greatest
  pub high : 0 < d.height
  pub height_held : d.height ≤ greatest
  pub some_bytes : 0 < stride d.pixel_format d.width

-- The device behind `Init`.
unfoldable pub started {ℓ} : {C : Type ℓ} → Device C → C → Device C
started d c = record d { initialized = true; cinfo = c; image_height = d.height }

module _ {ℓ} {C : Type ℓ} {lib : Library C} (stride : ℕ → ℕ → ℕ) (raw : ℕ) {greatest : ℕ}
    (comp : Compressor lib greatest) where
  pub init_ready :
      (d : Device C)
      → IsReady stride greatest d
      → (c : C) × (init lib stride raw d ≡ returned (started d c, true))
        × (lib.next_scanline c ≡ 0)
        × (comp.lines c ≡ [])
        × (comp.lines_due c ≡ d.height)
  unfolding init started
  init_ready d r =
      let (c, e, next, none_yet, due) =
        comp.starts d.cinfo d.width d.height d.input_components r.wide r.width_held r.high
          r.height_held in
      let sized : (ltb d.width 1 || ltb d.height 1) ≡ false = ground (arith, r.wide, r.high) in
      (c, rw (r.idle, sized, e) refl, next, none_yet, due)
