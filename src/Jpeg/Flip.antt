-- ===== src/Jpeg/Flip.antt =====
-- Rows that do not begin at the top: all are kept, and `Render` writes them.
use image_proxy.Base.{
  ℕ, zero, suc, ◌+◌, ◌*◌, ◌≤◌, ◌<◌, ◌≡◌, refl, sym, ap, ap₂, ◌∙◌, ◌≢◌, inl, inr, true, false, some,
  List, [], ◌∷◌, ◌++◌, append-nil, append_assoc, arith, ltb, ◌==◌, Bool-cases, length, take, drop,
  All, length-replicate, drop-drop, Bytes,
}
use image_proxy.Jpeg.{
  returned, Library, ScopedBuf, Device, alloc, init, row_at, sweep_initialized, sweep_scanline,
  write_rows, render_rows, finish, render,
}
use image_proxy.Jpeg.Picture.{
  cut, paint, draw_row, Compressor, length-cut, length-overwrite, cut-overwrite, draw_page, draw,
  draw_step, IsReady, started, init_ready,
}

-- A row of a picture that is inside its memory.
row_fits : (y h st n : ℕ) → y < h → h * st ≤ n → y * st + st ≤ n
row_fits y h st n k l =
    let one_more : suc y * st ≡ y * st + st = grind arith in
    let below : suc y * st ≤ h * st = grind arith in omega (arith, one_more, below, l)

-- A buffer has the room that is asked for.
alloc-room : (raw : ℕ) (b : ScopedBuf) (n : ℕ) → n ≤ length (alloc raw b n).memory
unfolding alloc
alloc-room raw b n = elim (Bool-cases (ltb (length b.memory) n)) [
  | inl less ↦ rw less (omega (arith, length-replicate n raw))
  | inr held ↦ rw held (ground (arith, held))
]

module _ {ℓ} {C : Type ℓ} {lib : Library C} (stride : ℕ → ℕ → ℕ) (raw : ℕ) {greatest : ℕ}
    (comp : Compressor lib greatest) where
  -- The device that keeps the rows.
  record HoldsRows (st : ℕ) (d : Device C) : Type ℓ where
    under_way : d.initialized ≡ true
    flipped : d.flip ≡ true
    row_size : stride d.pixel_format d.width ≡ st
    room : d.height * st ≤ length d.scanline_buf.memory
    due : comp.lines_due d.cinfo ≡ d.height
    next : lib.next_scanline d.cinfo ≡ 0
    taken : comp.lines d.cinfo ≡ []

  write_rows_lem :
      (st k : ℕ) (d : Device C) (offset : ℕ)
      → stride d.pixel_format d.width ≡ st
      → lib.next_scanline d.cinfo + k ≡ comp.lines_due d.cinfo
      → (c : C) × (write_rows lib stride raw k d offset ≡ returned (record d { cinfo = c }))
        × (lib.next_scanline c ≡ comp.lines_due c)
        × (comp.lines c ≡ comp.lines d.cinfo ++ cut k st (drop offset d.scanline_buf.memory))
  unfolding write_rows cut row_at
  write_rows_lem st zero d offset r h = (d.cinfo, refl, omega (arith, h), sym (append-nil _))
  write_rows_lem st (suc k) d offset r h =
      let m = d.scanline_buf.memory in
      let row = row_at lib stride raw d offset in
      let same : row ≡ take st (drop offset m) = ap (λ n. take n (drop offset m)) r in
      let (c, e, next, lines, due) = comp.writes d.cinfo row (omega (arith, h)) in
      let (c1, e1, all, rest) =
        write_rows_lem st k (record d { cinfo = c }) (offset + stride d.pixel_format d.width) r
          (omega (arith, next, due, h)) in
      let behind : drop (offset + stride d.pixel_format d.width) m ≡ drop st (drop offset m) =
        sym (drop-drop _ offset st m (omega (arith, r))) in
      (
        c1,
        rw (write_rows, e) e1,
        all,
        rest
            ∙ ap₂ (λ x y. x ++ cut k st y) lines behind
            ∙ append_assoc (comp.lines d.cinfo) (row ∷ []) (cut k st (drop st (drop offset m)))
            ∙ ap (λ x. comp.lines d.cinfo ++ (x ∷ cut k st (drop st (drop offset m)))) same,
      )

  render_kept :
      (d : Device C)
      → d.initialized ≡ true
      → d.flip ≡ true
      → render lib stride raw d ≡ finish lib stride raw (write_rows lib stride raw d.height d 0)
  unfolding render init render_rows
  render_kept d i f = ground arith

  kept_end :
      (st : ℕ) (d : Device C)
      → HoldsRows st d
      → (d1 : Device C) × (render lib stride raw d ≡ returned d1)
        × (comp.lines d1.cinfo ≡ cut d.height st d.scanline_buf.memory)
        × (d1.initialized ≡ false)
  unfolding finish
  kept_end st d s =
      let (c, e, all, lines) =
        write_rows_lem st d.height d 0 s.row_size (omega (arith, s.next, s.due)) in
      let (c1, e1, same) = comp.finishes c all in
      (
        record d { initialized = false; write_scanline = false; flip = false; cinfo = c1 },
        render_kept d s.under_way s.flipped ∙ ap (finish lib stride raw) e ∙ rw (finish, e1) refl,
        same ∙ lines ∙ ap (λ x. x ++ cut d.height st d.scanline_buf.memory) s.taken,
        refl,
      )

  sweep_kept :
      (d : Device C) (y : ℕ)
      → d.initialized ≡ true
      → d.flip ≡ true
      → sweep_scanline lib stride raw d y true
        ≡ returned (d, some (y * stride d.pixel_format d.width))
  unfolding sweep_scanline init sweep_initialized
  sweep_kept d y i f = ground arith

  draw_row-HoldsRows :
      (st : ℕ) (d : Device C) (y : ℕ) (row : Bytes)
      → HoldsRows st d
      → y < d.height
      → length row ≡ st
      → HoldsRows st (draw_row d (y * st) row)
  unfolding draw_row
  draw_row-HoldsRows st d y row s h l =
      let fits = row_fits y d.height st (length d.scanline_buf.memory) h s.room in
      record {
        under_way = s.under_way;
        flipped = s.flipped;
        row_size = s.row_size;
        room = omega (
          arith,
          s.room,
          length-overwrite d.scanline_buf.memory (y * st) row (omega (arith, fits, l)),
        );
        due = s.due;
        next = s.next;
        taken = s.taken;
      }

  -- The rows that are left to draw, and `Render`.
  draw_kept :
      (st : ℕ) (d : Device C) (rows : List (ℕ × Bytes))
      → HoldsRows st d
      → All (λ (r : ℕ × Bytes). (r.0 < d.height) × (length r.1 ≡ st)) rows
      → (d1 : Device C) × (draw lib stride raw rows d ≡ returned d1)
        × (comp.lines d1.cinfo ≡ paint rows (cut d.height st d.scanline_buf.memory))
        × (d1.initialized ≡ false)
  unfolding draw draw_page paint draw_row
  draw_kept st d [] s all = kept_end st d s
  draw_kept st d ((y, row) ∷ rows) s ((h, l), all) =
      let at : y * stride d.pixel_format d.width ≡ y * st = ap (λ n. y * n) s.row_size in
      let (d1, e, lines, ended) =
        draw_kept st (draw_row d (y * st) row) rows (draw_row-HoldsRows st d y row s h l) all in
      (
        d1,
        draw_step lib stride raw d d y (y * stride d.pixel_format d.width) row rows
              (sweep_kept d y s.under_way s.flipped)
            ∙ ap (λ n. draw lib stride raw rows (draw_row d n row)) at
            ∙ e,
        lines ∙ ap (paint rows) (cut-overwrite d.height st y d.scanline_buf.memory row h l s.room),
        ended,
      )

  first_kept :
      (d : Device C) (c : C) (y : ℕ)
      → d.initialized ≡ false
      → init lib stride raw d ≡ returned (started d c, true)
      → lib.next_scanline c ≡ 0
      → y ≢ 0
      → let st = stride d.pixel_format d.width in
        let buf = alloc raw d.scanline_buf (d.height * st) in
        sweep_scanline lib stride raw d y true
        ≡ returned (record (started d c) { flip = true; scanline_buf = buf }, some (y * st))
  unfolding sweep_scanline sweep_initialized started
  first_kept d c y i e n h =
      let away : (lib.next_scanline c == y) ≡ false = ground (arith, n, h) in
      rw (sweep_scanline, e) (ground (arith, away))

  -- For a page whose first row is not row 0, as on a device with a viewport that the compressor takes, the
  -- compressor gets the height's number of rows from the top, each with what the page drew last at its
  -- place; neither `SweepScanline` nor `Render` throws or is undefined. Rows that the page does not draw
  -- are of some picture `base`.
  pub draw_flipped :
      (d : Device C) (y : ℕ) (row : Bytes) (rows : List (ℕ × Bytes))
      → IsReady stride greatest d
      → y ≢ 0
      → All
          (λ (r : ℕ × Bytes). (r.0 < d.height) × (length r.1 ≡ stride d.pixel_format d.width))
          ((y, row) ∷ rows)
      → (d1 : Device C) × (base : List Bytes) × (draw lib stride raw ((y, row) ∷ rows) d
          ≡ returned d1)
        × (length base ≡ d.height)
        × (comp.lines d1.cinfo ≡ paint ((y, row) ∷ rows) base)
        × (d1.initialized ≡ false)
  unfolding draw_row paint started
  draw_flipped d y row rows r n ((h, l), all) =
      let st = stride d.pixel_format d.width in
      let (c, e, next, none_yet, due) = init_ready stride raw comp d r in
      let buf = alloc raw d.scanline_buf (d.height * st) in
      let d0 = record (started d c) { flip = true; scanline_buf = buf } in
      let room = alloc-room raw d.scanline_buf (d.height * st) in
      let kept : HoldsRows st d0 = record {
        under_way = refl;
        flipped = refl;
        row_size = refl;
        room = room;
        due = due;
        next = next;
        taken = none_yet;
      } in
      let (d1, e1, lines, ended) =
        draw_kept st (draw_row d0 (y * st) row) rows (draw_row-HoldsRows st d0 y row kept h l)
          all in
      (
        d1,
        cut d.height st buf.memory,
        draw_step lib stride raw d d0 y (y * st) row rows (first_kept d c y r.idle e next n) ∙ e1,
        length-cut d.height st buf.memory,
        lines ∙ ap (paint rows) (cut-overwrite d.height st y buf.memory row h l room),
        ended,
      )
