-- ===== src/Jpeg/Down.antt =====
-- Rows that come from the top: each goes to the compressor when the next one comes.
use image_proxy.Base.{
  ℕ, ◌+◌, ◌<◌, ◌≡◌, refl, sym, ap, ◌∙◌, true, false, some, List, [], ◌∷◌, ◌++◌, append_assoc, arith,
  length, take, All, length-append, Bytes,
}
use image_proxy.Jpeg.{returned, Library, Device, row_at, sweep_scanline, finish, render}
use image_proxy.Jpeg.Sweeps.{
  sweep_running, sweep_started, fitted, fitted_size, down_without, down_with, written_one,
  render_last,
}
use image_proxy.Jpeg.Picture.{
  numbered, draw_row, Compressor, take-overwrite_first, draw_page, draw, draw_step, IsReady,
  started, init_ready,
}

module _ {ℓ} {C : Type ℓ} {lib : Library C} (stride : ℕ → ℕ → ℕ) (raw : ℕ) {greatest : ℕ}
    (comp : Compressor lib greatest) where
  -- The device with the rows that the compressor has, and the one in the buffer.
  record RowBehind (st : ℕ) (d : Device C) (done : List Bytes) (last : Bytes) : Type ℓ where
    under_way : d.initialized ≡ true
    row_kept : d.write_scanline ≡ true
    not_flipped : d.flip ≡ false
    row_size : stride d.pixel_format d.width ≡ st
    buffer_size : d.scanline_buf.size ≡ st
    last_row : take st d.scanline_buf.memory ≡ last
    heights : d.image_height ≡ d.height
    due : comp.lines_due d.cinfo ≡ d.height
    next : lib.next_scanline d.cinfo ≡ length done
    taken : comp.lines d.cinfo ≡ done
    some_bytes : 0 < st

  -- The first row.
  down_first :
      (d : Device C) (row : Bytes)
      → IsReady stride greatest d
      → length row ≡ stride d.pixel_format d.width
      → (d1 : Device C) × (sweep_scanline lib stride raw d 0 true ≡ returned (d1, some 0))
        × (d1.height ≡ d.height)
        × RowBehind (stride d.pixel_format d.width) (draw_row d1 0 row) [] row
  unfolding started draw_row
  down_first d row r l =
      let (c, e, next, none_yet, due) = init_ready stride raw comp d r in
      let d0 = started d c in
      (
        record d0 { scanline_buf = fitted lib stride raw d0; write_scanline = true },
        sweep_started lib stride raw d c r.idle r.not_flipped e next
            ∙ down_without lib stride raw d0 0 r.no_row,
        refl,
        record {
          under_way = refl;
          row_kept = refl;
          not_flipped = r.not_flipped;
          row_size = refl;
          buffer_size = fitted_size lib stride raw d0;
          last_row = take-overwrite_first (fitted lib stride raw d0).memory row _ (sym l);
          heights = refl;
          due = due;
          next = next;
          taken = none_yet;
          some_bytes = r.some_bytes;
        },
      )

  row-last :
      (st : ℕ) (d : Device C) (done : List Bytes) (last : Bytes)
      → RowBehind st d done last
      → row_at lib stride raw d 0 ≡ last
  unfolding row_at
  row-last st d done last s = ap (λ n. take n d.scanline_buf.memory) s.row_size ∙ s.last_row

  -- The next row.
  down_next :
      (st : ℕ) (d : Device C) (done : List Bytes) (last row : Bytes)
      → RowBehind st d done last
      → length done + 1 < d.height
      → length row ≡ st
      → (d1 : Device C) × (sweep_scanline lib stride raw d (length done + 1) true
          ≡ returned (d1, some 0))
        × (d1.height ≡ d.height)
        × RowBehind st (draw_row d1 0 row) (done ++ (last ∷ [])) row
  unfolding draw_row
  down_next st d done last row s h l =
      let (c, e, next, lines, due) = comp.writes d.cinfo last (omega (arith, s.next, s.due, h)) in
      let y = length done + 1 in
      (
        record d { cinfo = c },
        sweep_running lib stride raw d y s.under_way s.not_flipped
            ∙ down_with lib stride raw d y s.row_kept (s.buffer_size ∙ sym s.row_size)
            ∙ written_one lib stride raw d y c (omega (arith, s.next, s.heights, h)) h
                (ap (lib.write_scanline d.cinfo) (row-last st d done last s) ∙ e),
        refl,
        record {
          under_way = s.under_way;
          row_kept = s.row_kept;
          not_flipped = s.not_flipped;
          row_size = s.row_size;
          buffer_size = s.buffer_size;
          last_row = take-overwrite_first d.scanline_buf.memory row st (sym l);
          heights = s.heights;
          due = due ∙ s.due;
          next = omega (arith, next, s.next, length-append done (last ∷ []));
          taken = lines ∙ ap (λ x. x ++ (last ∷ [])) s.taken;
          some_bytes = s.some_bytes;
        },
      )

  down_end :
      (st : ℕ) (d : Device C) (done : List Bytes) (last : Bytes)
      → RowBehind st d done last
      → length done + 1 ≡ d.height
      → (d1 : Device C) × (render lib stride raw d ≡ returned d1)
        × (comp.lines d1.cinfo ≡ done ++ (last ∷ []))
        × (d1.initialized ≡ false)
  unfolding finish
  down_end st d done last s h =
      let (c, e, next, lines, due) = comp.writes d.cinfo last (omega (arith, s.next, s.due, h)) in
      let (c1, e1, same) = comp.finishes c (omega (arith, next, due, s.next, s.due, h)) in
      (
        record d { initialized = false; write_scanline = false; flip = false; cinfo = c1 },
        render_last lib stride raw d c s.under_way s.not_flipped
              (omega (arith, s.next, s.heights, h)) (omega (arith, s.buffer_size, s.some_bytes))
              (ap (lib.write_scanline d.cinfo) (row-last st d done last s) ∙ e)
            ∙ rw (finish, e1) refl,
        same ∙ lines ∙ ap (λ x. x ++ (last ∷ [])) s.taken,
        refl,
      )

  -- The rows behind the first, and `Render`.
  down_rest :
      (st : ℕ) (d : Device C) (done : List Bytes) (last : Bytes) (rows : List Bytes)
      → RowBehind st d done last
      → All (λ row. length row ≡ st) rows
      → length done + 1 + length rows ≡ d.height
      → (d1 : Device C) × (draw lib stride raw (numbered (length done + 1) rows) d ≡ returned d1)
        × (comp.lines d1.cinfo ≡ done ++ (last ∷ rows))
        × (d1.initialized ≡ false)
  unfolding draw_row draw_page draw numbered
  down_rest st d done last [] s all h = down_end st d done last s (omega (arith, h))
  down_rest st d done last (row ∷ rows) s (l, all) h =
      let (d1, e, same, s1) = down_next st d done last row s (omega (arith, h)) l in
      let n : length (done ++ (last ∷ [])) ≡ length done + 1 = length-append done (last ∷ []) in
      let high : length (done ++ (last ∷ [])) + 1 + length rows ≡ d1.height =
        omega (arith, n, h, same) in
      let (d2, e2, lines, ended) =
        down_rest st (draw_row d1 0 row) (done ++ (last ∷ [])) row rows s1 all high in
      (
        d2,
        draw_step lib stride raw d d1 (length done + 1) 0 row (numbered (length done + 1 + 1) rows)
              e
            ∙ ap (λ k. draw lib stride raw (numbered (k + 1) rows) (draw_row d1 0 row)) (sym n)
            ∙ e2,
        lines ∙ append_assoc done (last ∷ []) (row ∷ rows),
        ended,
      )

  -- For a page that draws its rows from the top, on a device with a viewport whose width and height
  -- the compressor takes, neither `SweepScanline` nor `Render` throws or is undefined, and the
  -- compressor gets exactly these rows, in their order, before it is finished.
  pub draw_down :
      (d : Device C) (row : Bytes) (rows : List Bytes)
      → IsReady stride greatest d
      → All (λ x. length x ≡ stride d.pixel_format d.width) (row ∷ rows)
      → length (row ∷ rows) ≡ d.height
      → (d1 : Device C) × (draw lib stride raw (numbered 0 (row ∷ rows)) d ≡ returned d1)
        × (comp.lines d1.cinfo ≡ row ∷ rows)
        × (d1.initialized ≡ false)
  unfolding draw_row numbered
  draw_down d row rows r (l, all) h =
      let (d1, e, same, s1) = down_first d row r l in
      let high : 0 + 1 + length rows ≡ d1.height = omega (arith, h, same) in
      let (d2, e2, lines, ended) =
        down_rest (stride d.pixel_format d.width) (draw_row d1 0 row) [] row rows s1 all high in
      (d2, draw_step lib stride raw d d1 0 0 row (numbered (0 + 1) rows) e ∙ e2, lines, ended)
