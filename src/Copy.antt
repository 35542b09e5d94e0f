-- ===== src/Copy.antt =====
-- `IOStream::CopyTo` of cpcl/io_stream.cpp, which goes over two virtual functions: the input's `Read` takes a
-- state and a size and gives the state and the bytes that it put into the buffer; the output's `Write` takes a
-- state and the bytes and gives the state and how many it wrote.
pub mod Streams
pub mod Whole
mod Tests
-- The buffer's size.

use image_proxy.Base.{
  ℕ, zero, suc, ◌+◌, ◌-◌, ◌*◌, ◌/◌, ◌%◌, ◌^◌, ◌≤◌, ◌<◌, min, max, ◌≡◌, refl, sym, ap, ap₂, subst,
  ◌∙◌, ◌≢◌, ◌↔◌, ◌⊎◌, inl, inr, Bool, true, false, not, ◌&&◌, ◌||◌, Option, none, some, List, [],
  ◌∷◌, ◌++◌, map, flatten, append-nil, append_assoc, arith, ltb, leb, ◌==◌, if◌then◌else◌, ltb→lt,
  lt→ltb, leb→le, ==→eq, ==_iff, tests, Bool-cases, Option-cases, List-cases, length, get_elem?,
  set, get_or, take, drop, replicate, All, length-append, length-set, length-take, length-drop,
  length-replicate, take-append-drop, get_elem?-set_self, get_elem?-set_ne, take-add, drop-drop,
  take-take, drop-take, take-take-min, take-all, drop-all, take-append_le, take-append_add,
  drop-append_le, drop-append_add, holds_below, holds_below_at, Bytes, dec_lt, dec_le, ℕ_discrete,
  codes, bytes_eq, bytes_eq_refl, bytes_eq→eq, bytes_eq_iff,
}

abbrev pub copy_buffer : ℕ
copy_buffer = 0x1000

-- What a run of the loop leaves: the input, the output and the result.
pub record Copied {ℓ κ} (S : Type ℓ) (T : Type κ) : Type (ℓ ⊔ κ) where
  pub input : S
  pub output : T
  pub total_written : ℕ

module _ {ℓ κ} {S : Type ℓ} {T : Type κ} (input_read : S → ℕ → S × Bytes)
    (output_write : T → Bytes → T × ℕ) where
  -- The loop, on fuel; `none` means that the fuel ran out.
  unfoldable pub copy_loop : ℕ → S → T → ℕ → ℕ → Option (Copied S T)
  copy_loop zero s t size total = none
  copy_loop (suc fuel) s t size total =
      let (s1, bytes) = input_read s (min size copy_buffer) in
      let (t1, written) = output_write t bytes in
      let total1 = (total + written) % 2 ^ 32 in
      let rest = copy_loop fuel s1 t1 (size - length bytes) total1 in
      if length bytes == 0
      then some (record { input = s1; output = t; total_written = total })
      else if not (written == length bytes) || (size - length bytes == 0)
      then some (record { input = s1; output = t1; total_written = total1 })
      else rest

  -- `IOStream::CopyTo`.
  unfoldable pub copy_to : ℕ → S → T → ℕ → Option (Copied S T)
  copy_to fuel s t size = copy_loop fuel s t size 0
