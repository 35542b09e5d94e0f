-- ===== src/Jpeg/Output.antt =====
-- `JpegOutputManager` of webhdfs_image_proxy/jpeg_compressor_stuff.cpp and jpeg_compressor_stuff.h: where the
-- compressor puts its bytes. The output is a stream, whose `Write` is a parameter. `next_output_byte` is an
-- index into the buffer.
pub mod Delivered
use image_proxy.Base.{
  ℕ, zero, suc, ◌+◌, ◌-◌, ◌*◌, ◌/◌, ◌%◌, ◌^◌, ◌≤◌, ◌<◌, min, max, ◌≡◌, refl, sym, ap, ap₂, subst,
  ◌∙◌, ◌≢◌, ◌↔◌, ◌⊎◌, inl, inr, Bool, true, false, not, ◌&&◌, ◌||◌, Option, none, some, List, [],
  ◌∷◌, ◌++◌, map, flatten, append-nil, append_assoc, arith, ltb, leb, ◌==◌, if◌then◌else◌, ltb→lt,
  lt→ltb, leb→le, ==→eq, ==_iff, tests, Bool-cases, Option-cases, List-cases, length, get_elem?,
  set, get_or, take, drop, replicate, All, length-append, length-set, length-take, length-drop,
  length-replicate, take-append-drop, get_elem?-set_self, get_elem?-set_ne, take-add, drop-drop,
  take-take, drop-take, take-take-min, take-all, drop-all, take-append_le, take-append_add,
  drop-append_le, drop-append_add, holds_below, holds_below_at, Bytes, dec_lt, dec_le, ℕ_discrete,
  codes, bytes_eq, bytes_eq_refl, bytes_eq→eq, bytes_eq_iff,
}

abbrev pub buffer_length : ℕ
buffer_length = 0x1000

pub record OutputManager {ℓ} (T : Type ℓ) : Type ℓ where
  pub out : T
  pub buffer : Bytes
  pub next_output_byte : ℕ
  pub free_in_buffer : ℕ

-- `method_init_destination`.
unfoldable pub init_destination {ℓ} : {T : Type ℓ} → OutputManager T → OutputManager T
init_destination m = record m { next_output_byte = 0; free_in_buffer = buffer_length }

module _ {ℓ} {T : Type ℓ} (output_write : T → Bytes → T × ℕ) where
  -- `method_empty_output_buffer`, which returns TRUE.
  unfoldable pub empty_output_buffer : OutputManager T → OutputManager T
  empty_output_buffer m = record m {
    out = (output_write m.out m.buffer).0;
    next_output_byte = 0;
    free_in_buffer = buffer_length;
  }

  -- `method_term_destination`.
  unfoldable pub term_destination : OutputManager T → OutputManager T
  term_destination m =
      let size = buffer_length - m.free_in_buffer in
      if ltb 0 size then record m { out = (output_write m.out (take size m.buffer)).0 } else m
