-- ===== src/Jpeg/Sweeps.antt =====
-- The branches of `SweepScanline` and `Render` that rows from the top take.
use image_proxy.Base.{ℕ, ◌<◌, ◌≡◌, refl, true, false, ◌&&◌, some, arith, ltb, ◌==◌, if◌then◌else◌}
use image_proxy.Jpeg.{
  returned, Library, ScopedBuf, Device, alloc, init, row_at, sweep_written, sweep_down,
  sweep_initialized, sweep_scanline, render_rows, finish, render,
}
use image_proxy.Jpeg.Picture.{started}

module _ {ℓ} {C : Type ℓ} (lib : Library C) (stride : ℕ → ℕ → ℕ) (raw : ℕ) where
  -- `Init` has been run, and the rows are not kept.
  pub sweep_running :
      (d : Device C) (y : ℕ)
      → d.initialized ≡ true
      → d.flip ≡ false
      → sweep_scanline lib stride raw d y true ≡ sweep_down lib stride raw d y true
  unfolding sweep_scanline init sweep_initialized
  sweep_running d y e f = ground arith

  -- The first row is row 0, so the rows are not kept.
  pub sweep_started :
      (d : Device C) (c : C)
      → d.initialized ≡ false
      → d.flip ≡ false
      → init lib stride raw d ≡ returned (started d c, true)
      → lib.next_scanline c ≡ 0
      → sweep_scanline lib stride raw d 0 true ≡ sweep_down lib stride raw (started d c) 0 true
  unfolding sweep_scanline sweep_initialized started
  sweep_started d c i f e n = rw (sweep_scanline, e) (ground arith)

  -- A buffer of one row.
  unfoldable pub fitted : Device C → ScopedBuf
  fitted d =
      let st = stride d.pixel_format d.width in
      if d.scanline_buf.size == st then d.scanline_buf else alloc raw d.scanline_buf st

  pub fitted_size : (d : Device C) → (fitted d).size ≡ stride d.pixel_format d.width
  unfolding fitted alloc
  fitted_size d = ground arith

  pub down_without :
      (d : Device C) (y : ℕ)
      → d.write_scanline ≡ false
      → sweep_down lib stride raw d y true
        ≡ returned (record d { scanline_buf = fitted d; write_scanline = true }, some 0)
  unfolding sweep_down fitted
  down_without d y h = ground arith

  pub down_with :
      (d : Device C) (y : ℕ)
      → d.write_scanline ≡ true
      → d.scanline_buf.size ≡ stride d.pixel_format d.width
      → sweep_down lib stride raw d y true ≡ sweep_written lib stride raw d y (some 0)
  unfolding sweep_down
  down_with d y h e = ground arith

  pub written_one :
      (d : Device C) (y : ℕ) (c : C)
      → lib.next_scanline d.cinfo < d.image_height
      → y < d.height
      → lib.write_scanline d.cinfo (row_at lib stride raw d 0) ≡ some (c, 1)
      → sweep_written lib stride raw d y (some 0) ≡ returned (record d { cinfo = c }, some 0)
  unfolding sweep_written
  written_one d y c h k e =
      let due : (ltb (lib.next_scanline d.cinfo) d.image_height && ltb y d.height) ≡ true =
        ground (arith, h, k) in
      rw (due, e) refl

  -- `Render` writes the row in the buffer.
  pub render_last :
      (d : Device C) (c : C)
      → d.initialized ≡ true
      → d.flip ≡ false
      → lib.next_scanline d.cinfo < d.image_height
      → 0 < d.scanline_buf.size
      → lib.write_scanline d.cinfo (row_at lib stride raw d 0) ≡ some (c, 1)
      → render lib stride raw d ≡ finish lib stride raw (returned (record d { cinfo = c }))
  unfolding render init render_rows
  render_last d c i f n p e =
      let due : ltb (lib.next_scanline d.cinfo) d.image_height ≡ true = ground (arith, n) in
      let filled : (d.scanline_buf.size == 0) ≡ false = ground (arith, p) in
      ground (arith, e, due, filled)
