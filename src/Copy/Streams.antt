-- ===== src/Copy/Streams.antt =====
-- The inputs and the outputs that a copy is stated for, and the steps of its proof that need no loop.

use image_proxy.Base.{
  ℕ, zero, suc, ◌-◌, ◌<◌, ◌≡◌, refl, ap, true, false, not, ◌||◌, [], ◌∷◌, ◌++◌, arith, ◌==◌, length,
  take, drop, Bytes,
}

pub take-length-take : (n : ℕ) (xs : Bytes) → take (length (take n xs)) xs ≡ take n xs
take-length-take zero xs = refl
take-length-take (suc n) [] = refl
take-length-take (suc n) (x ∷ xs) = ap (◌∷◌ x) (take-length-take n xs)

pub drop-length-take : (n : ℕ) (xs : Bytes) → drop (length (take n xs)) xs ≡ drop n xs
drop-length-take zero xs = refl
drop-length-take (suc n) [] = refl
drop-length-take (suc n) (x ∷ xs) = drop-length-take n xs

pub no_bytes : (xs : Bytes) → length xs ≡ 0 → xs ≡ []
no_bytes [] h = refl
no_bytes (x ∷ xs) h = absurd (omega arith)

pub stops :
    (b : Bytes) (size : ℕ)
    → ¬ (length b < size)
    → (not (length b == length b) || (size - length b == 0)) ≡ true
stops b size h = ground arith

pub goes_on :
    (b : Bytes) (size : ℕ)
    → length b < size
    → (not (length b == length b) || (size - length b == 0)) ≡ false
goes_on b size h = ground arith

-- A reader of a text: it gives the next bytes, as many as were asked for if there are so many.
pub record Reader {ℓ} (S : Type ℓ) (input_read : S → ℕ → S × Bytes) : Type ℓ where
  pub rest : S → Bytes
  pub read_next : (s : S) (n : ℕ) → (input_read s n).1 ≡ take n (rest s)
  pub read_rest : (s : S) (n : ℕ) → rest (input_read s n).0 ≡ drop n (rest s)

-- A writer that takes all the bytes.
pub record Writer {ℓ} (T : Type ℓ) (output_write : T → Bytes → T × ℕ) : Type ℓ where
  pub written_text : T → Bytes
  pub write_count : (t : T) (x : Bytes) → (output_write t x).1 ≡ length x
  pub write_text : (t : T) (x : Bytes) → written_text (output_write t x).0 ≡ written_text t ++ x
