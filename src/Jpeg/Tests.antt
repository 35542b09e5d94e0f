-- ===== src/Jpeg/Tests.antt =====
-- A picture of two rows of two bytes, on a compressor that keeps its rows.
use image_proxy.Base.{
  ℕ, ◌+◌, ◌-◌, ◌^◌, ◌≤◌, ◌<◌, ◌≡◌, refl, false, ◌&&◌, Option, none, some, List, [], ◌∷◌, ◌++◌,
  arith, ltb, leb, ◌==◌, if◌then◌else◌, length, replicate, length-replicate, Bytes,
}
use image_proxy.Jpeg.{
  returned, thrown, Library, Device, new_device, pixfmt, set_viewport, write_rows,
}
use image_proxy.Jpeg.Picture.{paint, numbered, Compressor, draw, IsReady}
use image_proxy.Copy.Streams.{Writer}
use image_proxy.Jpeg.Output.{OutputManager, init_destination, term_destination}
use image_proxy.Jpeg.Output.Delivered.{put, Emits, byte, nothing, term_destination-Emits}
use image_proxy.Jpeg.Down.{draw_down}
use image_proxy.Jpeg.Flip.{draw_flipped}

record Toy : Type 0 where
  next : ℕ
  due : ℕ
  rows : List Bytes

abbrev toy_start : Toy → ℕ → ℕ → ℕ → Option Toy
toy_start c w h n =
    if leb w 65500 && leb h 65500 then some (record { next = 0; due = h; rows = [] }) else none

abbrev toy_write : Toy → Bytes → Option (Toy × ℕ)
toy_write c row =
    if ltb c.next c.due
    then some (record c { next = c.next + 1; rows = c.rows ++ (row ∷ []) }, 1)
    else none

abbrev toy_finish : Toy → Option Toy
toy_finish c = if c.next == c.due then some c else none

abbrev toy : Library Toy
toy = record {
  next_scanline = λ c. c.next;
  start_compress = toy_start;
  write_scanline = toy_write;
  finish_compress = toy_finish;
}

toy_starts :
    (c : Toy) (w h n : ℕ)
    → 0 < w
    → w ≤ 65500
    → 0 < h
    → h ≤ 65500
    → (c1 : Toy) × (toy_start c w h n ≡ some c1) × (c1.next ≡ 0) × (c1.rows ≡ []) × (c1.due ≡ h)
toy_starts c w h n p l q m =
    (record { next = 0; due = h; rows = [] }, ground (arith, l, m), refl, refl, refl)

toy_writes :
    (c : Toy) (row : Bytes)
    → c.next < c.due
    → (c1 : Toy) × (toy_write c row ≡ some (c1, 1))
      × (c1.next ≡ c.next + 1)
      × (c1.rows ≡ c.rows ++ (row ∷ []))
      × (c1.due ≡ c.due)
toy_writes c row h = (
  record c { next = c.next + 1; rows = c.rows ++ (row ∷ []) },
  ground (arith, h),
  refl,
  refl,
  refl,
)

toy_finishes :
    (c : Toy) → c.next ≡ c.due → (c1 : Toy) × (toy_finish c ≡ some c1) × (c1.rows ≡ c.rows)
toy_finishes c h = (c, ground (arith, h), refl)

abbrev toy_compressor : Compressor toy 65500
toy_compressor = record {
  lines = λ c. c.rows;
  lines_due = λ c. c.due;
  starts = toy_starts;
  writes = toy_writes;
  finishes = toy_finishes;
}

-- A byte for a pixel.
abbrev gray_row : ℕ → ℕ → ℕ
gray_row format w = w

abbrev blank : Device Toy
unfolding new_device
blank = new_device 2 (record { next = 0; due = 0; rows = [] })

abbrev two_rows : Device Toy
unfolding new_device set_viewport
two_rows = (set_viewport blank 0 0 2 2).0

abbrev top : Bytes
top = 1 ∷ 2 ∷ []

abbrev bottom : Bytes
bottom = 3 ∷ 4 ∷ []

viewport_run : (set_viewport two_rows 5 5 4 9).0.width ≡ 2 ^ 32 - 1
unfolding set_viewport new_device
viewport_run = refl

pixfmt_run : (pixfmt 1 2 blank 1).input_components ≡ 1
unfolding pixfmt new_device
pixfmt_run = refl

two_rows-IsReady : IsReady gray_row 65500 two_rows
unfolding new_device set_viewport
two_rows-IsReady = record {
  idle = refl;
  no_row = refl;
  not_flipped = refl;
  wide = omega arith;
  width_held = omega arith;
  high = omega arith;
  height_held = omega arith;
  some_bytes = omega arith;
}

draw_down_example :
    (d : Device Toy) × (draw toy gray_row 9 (numbered 0 (top ∷ bottom ∷ [])) two_rows ≡ returned d)
    × (d.cinfo.rows ≡ top ∷ bottom ∷ [])
    × (d.initialized ≡ false)
unfolding new_device set_viewport
draw_down_example =
    draw_down gray_row 9 toy_compressor two_rows top (bottom ∷ []) two_rows-IsReady
      (refl, (refl, tt)) refl

draw_flipped_example :
    (d : Device Toy) × (base : List Bytes) × (draw toy gray_row 9
        ((1, bottom) ∷ (0, top) ∷ [])
        two_rows
      ≡ returned d)
    × (length base ≡ two_rows.height)
    × (d.cinfo.rows ≡ paint ((1, bottom) ∷ (0, top) ∷ []) base)
    × (d.initialized ≡ false)
unfolding new_device set_viewport
draw_flipped_example =
    draw_flipped gray_row 9 toy_compressor two_rows 1 bottom ((0, top) ∷ []) two_rows-IsReady
      (omega arith) ((omega arith, refl), ((omega arith, refl), tt))

write_refused_run :
    (write_rows toy gray_row 9 3
      (record two_rows { cinfo = record { next = 0; due = 2; rows = [] } })
      0)
    ≡ thrown
unfolding write_rows new_device set_viewport
write_refused_run = refl

-- A stream that is the text written to it.
abbrev text_write : Bytes → Bytes → Bytes × ℕ
text_write t x = (t ++ x, length x)

abbrev text_writer : Writer Bytes text_write
text_writer = record { written_text = λ t. t; write_count = λ t x. refl; write_text = λ t x. refl }

abbrev new_manager : OutputManager Bytes
new_manager = record {
  out = [];
  buffer = replicate 0x1000 0;
  next_output_byte = 0;
  free_in_buffer = 0;
}

-- The compressor emits two bytes.
two_bytes :
    Emits text_write
      (init_destination new_manager)
      top
      (put (put (init_destination new_manager) 1) 2)
unfolding put init_destination
two_bytes = byte (omega arith) (byte (omega arith) nothing)

term_destination-Emits_example :
    (term_destination text_write (put (put (init_destination new_manager) 1) 2)).out ≡ [] ++ top
term_destination-Emits_example =
    term_destination-Emits text_writer new_manager (put (put (init_destination new_manager) 1) 2)
      top (length-replicate {A = ℕ} 0x1000 0) two_bytes
