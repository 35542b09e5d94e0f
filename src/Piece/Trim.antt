-- ===== src/Piece/Trim.antt =====
-- What `trim` and its kin leave.
use image_proxy.Base.{
  ℕ, zero, suc, ◌≤◌, ◌<◌, ◌≡◌, refl, sym, ap, ◌∙◌, inl, inr, true, false, [], ◌∷◌, ◌++◌, append-nil,
  append_assoc, arith, ◌==◌, Bool-cases, length, get_or, take, take-all, Bytes,
}
use image_proxy.Paths.Places.{take-get}
use image_proxy.Piece.{find, skip_head, tail_from, trim, trim_tail}

-- All characters of the text are among the given ones.
pub AllOf : Bytes → Bytes → Type 0
AllOf chars [] = Unit
AllOf chars (c ∷ s) = (find chars c ≡ true) × AllOf chars s

AllOf-append : (chars s t : Bytes) → AllOf chars s → AllOf chars t → AllOf chars (s ++ t)
unfolding AllOf
AllOf-append chars [] t h k = k
AllOf-append chars (c ∷ s) t (f, h) k = (f, AllOf-append chars s t h k)

-- The text has no character of the given ones at its front; at its end.
pub data Clean (chars : Bytes) : Bytes → Type 0 where
  empty : Clean chars []
  starts : {c : ℕ} {s : Bytes} → find chars c ≡ false → Clean chars (c ∷ s)

pub data CleanEnd (chars : Bytes) : Bytes → Type 0 where
  empty_end : CleanEnd chars []
  ends :
      (s : Bytes) (c : ℕ) {t : Bytes} → t ≡ s ++ (c ∷ []) → find chars c ≡ false → CleanEnd chars t

Clean-take : (chars t : Bytes) (n : ℕ) → Clean chars t → Clean chars (take n t)
Clean-take chars [] zero c = empty
Clean-take chars [] (suc n) c = empty
Clean-take chars (x ∷ t) zero c = empty
Clean-take chars (x ∷ t) (suc n) (starts k) = starts k

pub skip_head_lem :
    (chars s : Bytes)
    → (front : Bytes) × AllOf chars front
      × (s ≡ front ++ skip_head chars s)
      × Clean chars (skip_head chars s)
unfolding skip_head AllOf
skip_head_lem chars [] = ([], tt, refl, empty)
skip_head_lem chars (c ∷ s) = elim (Bool-cases (find chars c)) [
  | inl cut ↦
      let (front, all, e, clean) = skip_head_lem chars s in
      rw cut ((c ∷ front, (cut, all), ap (◌∷◌ c) e, clean))
  | inr kept ↦ rw kept ([], tt, refl, starts kept)
]

pub tail_from_lem :
    (chars s : Bytes) (n : ℕ)
    → n ≤ length s
    → let i = tail_from chars s n in
      (back : Bytes) × AllOf chars back × (take n s ≡ take i s ++ back) × CleanEnd chars (take i s)
unfolding tail_from AllOf
tail_from_lem chars s zero h = ([], tt, refl, empty_end)
tail_from_lem chars s (suc i) h = elim (Bool-cases (find chars (get_or s i 0))) [
  | inl cut ↦
      let (back, all, e, clean) = tail_from_lem chars s i (omega (arith, h)) in
      let last = get_or s i 0 in
      rw cut (
        back ++ (last ∷ []),
        AllOf-append chars back (last ∷ []) all (cut, tt),
        take-get i s h
            ∙ ap (λ x. x ++ (last ∷ [])) e
            ∙ append_assoc (take (tail_from chars s i) s) back (last ∷ []),
        clean,
      )
  | inr kept ↦
      rw kept ([], tt, sym (append-nil _), ends (take i s) (get_or s i 0) (take-get i s h) kept)
]

-- What `trim` leaves of a text: the text without characters of the set in front and behind.
pub record Trimmed (chars s r : Bytes) : Type 0 where
  pub front : Bytes
  pub back : Bytes
  pub whole : s ≡ front ++ (r ++ back)
  pub front_of : AllOf chars front
  pub back_of : AllOf chars back
  pub start_clean : Clean chars r
  pub end_clean : CleanEnd chars r

-- Where there are characters to trim, `trim` takes only such characters from the front and the end of the text,
-- and what is left is empty or starts and ends in another one.
pub trim-Trimmed : (chars s : Bytes) → 0 < length chars → Trimmed chars s (trim chars s)
unfolding trim
trim-Trimmed chars s h =
    let some_chars : (length chars == 0) ≡ false = ground (arith, h) in
    let (front, all, e, clean) = skip_head_lem chars s in
    let t = skip_head chars s in
    let (back, all_back, e1, clean1) = tail_from_lem chars t (length t) (omega arith) in
    rw (trim, some_chars)
      (record {
        front = front;
        back = back;
        whole = e ∙ ap (λ x. front ++ x) (sym (take-all (length t) t (omega arith)) ∙ e1);
        front_of = all;
        back_of = all_back;
        start_clean = Clean-take chars t (tail_from chars t (length t)) clean;
        end_clean = clean1;
      })

pub trim_tail_lem :
    (chars s : Bytes)
    → 0 < length chars
    → (back : Bytes) × AllOf chars back
      × (s ≡ trim_tail chars s ++ back)
      × CleanEnd chars (trim_tail chars s)
unfolding trim_tail
trim_tail_lem chars s h =
    let some_chars : (length chars == 0) ≡ false = ground (arith, h) in
    let (back, all, e, clean) = tail_from_lem chars s (length s) (omega arith) in
    rw (trim_tail, some_chars) (back, all, sym (take-all (length s) s (omega arith)) ∙ e, clean)
