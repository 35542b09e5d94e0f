-- ===== src/Jpeg.antt =====
-- `JpegRenderingDevice` of webhdfs_image_proxy/jpeg_rendering_device.cpp, on which a page draws, with the
-- buffer `ScopedBuf<T, 0>` of cpcl/scoped_buf.hpp. The compressor of libjpeg is a parameter, as are the pixel
-- formats of plcl and the length of a row in bytes.
pub mod Picture
mod Sweeps
mod Failing
pub mod Output
pub mod Down
pub mod Flip
mod Tests
use image_proxy.Base.{
  ℕ, zero, suc, ◌+◌, ◌-◌, ◌*◌, ◌/◌, ◌%◌, ◌^◌, ◌≤◌, ◌<◌, min, max, ◌≡◌, refl, sym, ap, ap₂, subst,
  ◌∙◌, ◌≢◌, ◌↔◌, ◌⊎◌, inl, inr, Bool, true, false, not, ◌&&◌, ◌||◌, Option, none, some, List, [],
  ◌∷◌, ◌++◌, map, flatten, append-nil, append_assoc, arith, ltb, leb, ◌==◌, if◌then◌else◌, ltb→lt,
  lt→ltb, leb→le, ==→eq, ==_iff, tests, Bool-cases, Option-cases, List-cases, length, get_elem?,
  set, get_or, take, drop, replicate, All, length-append, length-set, length-take, length-drop,
  length-replicate, take-append-drop, get_elem?-set_self, get_elem?-set_ne, take-add, drop-drop,
  take-take, drop-take, take-take-min, take-all, drop-all, take-append_le, take-append_add,
  drop-append_le, drop-append_add, holds_below, holds_below_at, Bytes, dec_lt, dec_le, ℕ_discrete,
  codes, bytes_eq, bytes_eq_refl, bytes_eq→eq, bytes_eq_iff,
}
use Prim.Native.Nat.{bit_and, bit_or}

-- What a call leaves: its result, or an exception; or the behaviour is undefined.
pub data Outcome {ℓ} (A : Type ℓ) : Type ℓ where
  returned : A → Outcome A
  thrown : Outcome A
  undefined : Outcome A

-- The calls of libjpeg, on the state of the compressor. `none` is its error exit, which jumps to the last
-- `setjmp`.
pub record Library {ℓ} (C : Type ℓ) : Type ℓ where
  pub next_scanline : C → ℕ
  -- The settings for a width, a height and so many components, and `jpeg_start_compress`.
  pub start_compress : C → ℕ → ℕ → ℕ → Option C
  -- `jpeg_write_scanlines` for one row: how many it took.
  pub write_scanline : C → Bytes → Option (C × ℕ)
  pub finish_compress : C → Option C

-- `ScopedBuf<unsigned char, 0>`, with the memory that it owns, as many bytes as its capacity.
pub record ScopedBuf : Type 0 where
  pub memory : Bytes
  pub size : ℕ

pub record Device {ℓ} (C : Type ℓ) : Type ℓ where
  pub width : ℕ
  pub height : ℕ
  pub input_components : ℕ
  pub pixel_format : ℕ
  pub initialized : Bool
  pub write_scanline : Bool
  pub flip : Bool
  pub scanline_buf : ScopedBuf
  pub cinfo : C
  pub image_height : ℕ

-- `Alloc`, where fresh memory holds the byte `raw`.
unfoldable pub alloc : ℕ → ScopedBuf → ℕ → ScopedBuf
alloc raw b v =
    if ltb (length b.memory) v
    then record { memory = replicate v raw; size = v }
    else record b { size = v }

-- The constructor: gray and BGR are supported, and BGR is set.
unfoldable pub new_device {ℓ} : {C : Type ℓ} → ℕ → C → Device C
new_device bgr_24 cinfo = record {
  width = 0;
  height = 0;
  input_components = 3;
  pixel_format = bgr_24;
  initialized = false;
  write_scanline = false;
  flip = false;
  scanline_buf = record { memory = []; size = 0 };
  cinfo = cinfo;
  image_height = 0;
}

-- `Pixfmt`.
unfoldable pub pixfmt {ℓ} : {C : Type ℓ} → ℕ → ℕ → Device C → ℕ → Device C
pixfmt gray_8 bgr_24 d v =
    if d.pixel_format == v
    then d
    else if bit_and (bit_or gray_8 bgr_24) v == 0
    then d
    else record d { input_components = if bgr_24 == v then 3 else 1; pixel_format = v }

-- `SetViewport`, with the differences as 32 bits have them.
unfoldable pub set_viewport {ℓ} : {C : Type ℓ} → Device C → ℕ → ℕ → ℕ → ℕ → Device C × Bool
set_viewport d x1 y1 x2 y2 =
    let w = (x2 + 2 ^ 32 - x1) % 2 ^ 32 in
    let h = (y2 + 2 ^ 32 - y1) % 2 ^ 32 in
    if d.initialized
    then (d, false)
    else if ltb w 1 || ltb h 1
    then (d, false)
    else (record d { width = w; height = h }, true)

module _ {ℓ} {C : Type ℓ} (lib : Library C) (stride : ℕ → ℕ → ℕ) (raw : ℕ) where
  -- `Init`. It runs before `setjmp`, so an error exit has nowhere to jump.
  unfoldable pub init : Device C → Outcome (Device C × Bool)
  init d =
      if d.initialized
      then returned (d, true)
      else if ltb d.width 1 || ltb d.height 1
      then returned (d, false)
      else elim (lib.start_compress d.cinfo d.width d.height d.input_components) [
        | none ↦ undefined
        | some c ↦
            returned (record d { initialized = true; cinfo = c; image_height = d.height }, true)
      ]

  -- The row of the buffer that a pointer points to.
  unfoldable pub row_at : Device C → ℕ → Bytes
  row_at d offset = take (stride d.pixel_format d.width) (drop offset d.scanline_buf.memory)

  -- A row that comes behind the first one: the row in the buffer goes to the compressor.
  unfoldable pub sweep_written : Device C → ℕ → Option ℕ → Outcome (Device C × Option ℕ)
  sweep_written d y none =
      if ltb (lib.next_scanline d.cinfo) d.image_height && ltb y d.height
      then undefined
      else returned (d, none)
  sweep_written d y (some offset) =
      if ltb (lib.next_scanline d.cinfo) d.image_height && ltb y d.height
      then elim (lib.write_scanline d.cinfo (row_at d offset)) [
        | none ↦ thrown
        | some (c, lines) ↦
            if lines == 0 then thrown else returned (record d { cinfo = c }, some offset)
      ]
      else returned (d, some offset)

  -- The rows come from the top: one row is kept in the buffer.
  unfoldable pub sweep_down : Device C → ℕ → Bool → Outcome (Device C × Option ℕ)
  sweep_down d y wanted =
      let st = stride d.pixel_format d.width in
      let d1 =
        if d.scanline_buf.size == st
        then d
        else record d { scanline_buf = alloc raw d.scanline_buf st } in
      let pointer = if wanted then some 0 else none in
      if d1.write_scanline
      then sweep_written d1 y pointer
      else returned (record d1 { write_scanline = true }, pointer)

  -- `SweepScanline` behind `Init`: where the first row is not the next one, all rows are kept.
  unfoldable pub sweep_initialized : Device C → Bool → ℕ → Bool → Outcome (Device C × Option ℕ)
  sweep_initialized d check_flip y wanted =
      let st = stride d.pixel_format d.width in
      let d1 =
        if check_flip && not (lib.next_scanline d.cinfo == y)
        then record d { flip = true; scanline_buf = alloc raw d.scanline_buf (d.height * st) }
        else d in
      if d1.flip
      then returned (d1, if wanted then some (y * st) else none)
      else sweep_down d1 y wanted

  -- `SweepScanline` for a row: the offset in the buffer where the page draws it. `wanted` says that the
  -- caller gave a place for the pointer.
  unfoldable pub sweep_scanline : Device C → ℕ → Bool → Outcome (Device C × Option ℕ)
  sweep_scanline d y wanted = elim (init d) [
    | returned (d1, true) ↦ sweep_initialized d1 (not d.initialized) y wanted
    | returned (d1, false) ↦ returned (d1, none)
    | thrown ↦ thrown
    | undefined ↦ undefined
  ]

  -- The loop of `Render` over the rows that are kept, from an offset on.
  unfoldable pub write_rows : ℕ → Device C → ℕ → Outcome (Device C)
  write_rows zero d offset = returned d
  write_rows (suc k) d offset = elim (lib.write_scanline d.cinfo (row_at d offset)) [
    | none ↦ thrown
    | some (c, lines) ↦
        let rest = write_rows k (record d { cinfo = c }) (offset + stride d.pixel_format d.width) in
        if lines == 0 then thrown else rest
  ]

  -- The rows that `Render` writes: all that are kept, or the last one.
  unfoldable pub render_rows : Device C → Outcome (Device C)
  render_rows d =
      if d.flip
      then write_rows d.height d 0
      else if ltb (lib.next_scanline d.cinfo) d.image_height
      then (if d.scanline_buf.size == 0
          then undefined
          else elim (lib.write_scanline d.cinfo (row_at d 0)) [
            | none ↦ thrown
            | some (c, lines) ↦ returned (record d { cinfo = c })
          ])
      else returned d

  -- The end of `Render`.
  unfoldable pub finish : Outcome (Device C) → Outcome (Device C)
  finish (returned d) = elim (lib.finish_compress d.cinfo) [
    | none ↦ thrown
    | some c ↦
        returned (record d { initialized = false; write_scanline = false; flip = false; cinfo = c })
  ]
  finish thrown = thrown
  finish undefined = undefined

  -- `Render`.
  unfoldable pub render : Device C → Outcome (Device C)
  render d = elim (init d) [
    | returned (d1, true) ↦ finish (render_rows d1)
    | returned (d1, false) ↦ returned d1
    | thrown ↦ thrown
    | undefined ↦ undefined
  ]
