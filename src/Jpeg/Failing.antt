-- ===== src/Jpeg/Failing.antt =====
-- Errors of the compressor.
use image_proxy.Base.{ℕ, ◌<◌, ◌≡◌, true, false, none, arith}
use image_proxy.Jpeg.{
  thrown, Library, Device, init, row_at, sweep_written, sweep_down, sweep_initialized,
  sweep_scanline,
}

module _ {ℓ} {C : Type ℓ} (lib : Library C) (stride : ℕ → ℕ → ℕ) (raw : ℕ) where
  -- A row that the compressor refuses makes `SweepScanline` throw, on a device that does not keep the rows
  -- and has one in its buffer.
  pub refused-thrown :
      (d : Device C) (y : ℕ)
      → d.initialized ≡ true
      → d.flip ≡ false
      → d.write_scanline ≡ true
      → d.scanline_buf.size ≡ stride d.pixel_format d.width
      → lib.next_scanline d.cinfo < d.image_height
      → y < d.height
      → lib.write_scanline d.cinfo (row_at lib stride raw d 0) ≡ none
      → sweep_scanline lib stride raw d y true ≡ thrown
  unfolding sweep_scanline sweep_initialized sweep_down sweep_written init
  refused-thrown d y i f k b n h e = ground arith
