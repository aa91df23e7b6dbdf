-- ===== src/Gecko/Slices.antt =====
-- Slices of bytes of which a part was replaced.
use intouch2_mqtt.Base.{
  ℕ, zero, suc, ◌+◌, ◌-◌, ◌≤◌, ◌<◌, ◌≡◌, refl, ap, sym, ◌∙◌, Bool, false, ◌||◌, ◌==◌, Bool-cases,
  [], ◌∷◌, ◌++◌, Bytes, arith, leb, length, take, drop, length-append, length-take, length-drop,
  take-append-drop, append_assoc, ◌⊎◌, inl, inr, le_or_lt,
}
use intouch2_mqtt.Outcome.{returns}
use intouch2_mqtt.Gecko.{GeckoDatas, write, Range, slice, splice, contains}

drop-none : (n : ℕ) → drop {A = ℕ} n [] ≡ []
drop-none zero = refl
drop-none (suc n) = refl

next : (n m : ℕ) → suc (n + m) ≡ suc n + m
next n m = omega arith

pub drop-drop : (m n : ℕ) (xs : Bytes) → drop m (drop n xs) ≡ drop (n + m) xs
drop-drop m zero xs = ap (λ i. drop i xs) (omega arith)
drop-drop m (suc n) [] = drop-none m ∙ sym (drop-none (suc n + m))
drop-drop m (suc n) (x ∷ xs) = drop-drop m n xs ∙ ap (λ i. drop i (x ∷ xs)) (next n m)

pub drop-append_ge :
    (n : ℕ) (xs ys : Bytes) → length xs ≤ n → drop n (xs ++ ys) ≡ drop (n - length xs) ys
drop-append_ge n [] ys h = ap (λ i. drop i ys) (omega arith)
drop-append_ge zero (x ∷ xs) ys h = absurd (omega arith)
drop-append_ge (suc n) (x ∷ xs) ys h =
    drop-append_ge n xs ys (omega arith) ∙ ap (λ i. drop i ys) (omega arith)

take-append_le : (n : ℕ) (xs ys : Bytes) → n ≤ length xs → take n (xs ++ ys) ≡ take n xs
take-append_le zero xs ys h = refl
take-append_le (suc n) [] ys h = absurd (omega arith)
take-append_le (suc n) (x ∷ xs) ys h = ap (◌∷◌ x) (take-append_le n xs ys (omega arith))

-- A slice inside the first part of two does not depend on the second.
slice-front :
    (a n : ℕ) (xs ys : Bytes) → a + n ≤ length xs → take n (drop a (xs ++ ys)) ≡ take n (drop a xs)
slice-front zero n xs ys h = take-append_le n xs ys (omega arith)
slice-front (suc a) zero [] ys h = absurd (omega arith)
slice-front (suc a) n [] ys h = absurd (omega arith)
slice-front (suc a) n (x ∷ xs) ys h = slice-front a n xs ys (omega arith)

pub length-splice :
    (r : Range) (new xs : Bytes)
    → r.start ≤ r.end
    → r.end ≤ length xs
    → r.end - r.start ≡ length new
    → length (splice r new xs) ≡ length xs
length-splice r new xs h k e = omega (
  arith,
  length-append (take (r.start) xs) (new ++ drop (r.end) xs),
  length-append new (drop (r.end) xs),
  length-take (r.start) xs,
  length-drop (r.end) xs,
)

-- Behind what was replaced, nothing changed.
slice-splice_after :
    (r w : Range) (new xs : Bytes)
    → w.start ≤ w.end
    → w.end ≤ length xs
    → w.end - w.start ≡ length new
    → w.end ≤ r.start
    → slice r (splice w new xs) ≡ slice r xs
slice-splice_after r w new xs h k e o =
    let front : length (take (w.start) xs ++ new) ≡ w.end =
      omega (arith, length-append (take (w.start) xs) new, length-take (w.start) xs) in
    let apart : drop (r.start) (splice w new xs) ≡ drop (r.start) xs =
      ap (drop (r.start)) (sym (append_assoc (take (w.start) xs) new (drop (w.end) xs)))
      ∙ drop-append_ge (r.start) (take (w.start) xs ++ new) (drop (w.end) xs) (omega arith)
      ∙ drop-drop (r.start - length (take (w.start) xs ++ new)) (w.end) xs
      ∙ ap (λ i. drop i xs) (omega arith) in
    ap (take (r.end - r.start)) apart

-- Before what was replaced, nothing changed.
slice-splice_before :
    (r w : Range) (new xs : Bytes)
    → w.start ≤ length xs
    → r.start ≤ r.end
    → r.end ≤ w.start
    → slice r (splice w new xs) ≡ slice r xs
slice-splice_before r w new xs h k o =
    let inside : r.start + (r.end - r.start) ≤ length (take (w.start) xs) =
      omega (arith, length-take (w.start) xs) in
    slice-front (r.start) (r.end - r.start) (take (w.start) xs) (new ++ drop (w.end) xs) inside
    ∙ sym (slice-front (r.start) (r.end - r.start) (take (w.start) xs) (drop (w.start) xs) inside)
    ∙ ap (slice r) (take-append-drop (w.start) xs)

abbrev pub Apart : (r w : Range) → Type 0
Apart r w =
    (contains r (w.start) ≡ false)
    × ((contains r (w.end) ≡ false)
        × ((contains w (r.start) ≡ false) × (contains w (r.end) ≡ false)))

Apart-cases :
    (r w : Range)
    → r.start < r.end
    → w.start < w.end
    → Apart r w
    → (w.end ≤ r.start) ⊎ (r.end ≤ w.start)
Apart-cases r w h k a = ground arith

slice-none : (r : Range) (xs : Bytes) → r.end ≤ r.start → slice r xs ≡ []
slice-none r xs h = let e : r.end - r.start ≡ 0 = omega arith in rw e refl

-- The test by which a range concerns a changed range.
abbrev pub overlaps : Range → Range → Bool
overlaps range dirty_range =
    contains range dirty_range.start
    || (contains range dirty_range.end
        || (contains dirty_range range.start || contains dirty_range range.end))

Apart-overlaps : (r w : Range) → overlaps r w ≡ false → Apart r w
Apart-overlaps r w h = (ground arith, (ground arith, (ground arith, ground arith)))

splice-empty :
    (w : Range) (new xs : Bytes) → w.start ≡ w.end → length new ≡ 0 → splice w new xs ≡ xs
splice-empty w [] xs h e = rw (sym h) (take-append-drop w.start xs)
splice-empty w (x ∷ new) xs h e = absurd (omega arith)

-- A slice that the test does not connect with what was replaced is as it was.
pub slice-splice :
    (r w : Range) (new xs : Bytes)
    → w.start ≤ w.end
    → w.end ≤ length xs
    → w.end - w.start ≡ length new
    → r.start ≤ r.end
    → overlaps r w ≡ false
    → slice r (splice w new xs) ≡ slice r xs
slice-splice r w new xs h k e o a = elim (le_or_lt r.end r.start) [
  | inl p ↦ slice-none r (splice w new xs) p ∙ sym (slice-none r xs p)
  | inr p ↦ elim (le_or_lt w.end w.start) [
    | inl q ↦ ap (slice r) (splice-empty w new xs (omega arith) (omega arith))
    | inr q ↦ elim (Apart-cases r w p q (Apart-overlaps r w a)) [
      | inl before ↦ slice-splice_after r w new xs h k e before
      | inr behind ↦ slice-splice_before r w new xs (omega arith) o behind
    ]
  ]
]

-- A write that returns was in range and of the right length.
pub write-returns :
    (w : Range) (new : Bytes) (g g' : GeckoDatas)
    → write w new g ≡ returns g'
    → (w.start ≤ w.end)
      × (w.end ≤ length g.bytes)
      × (w.end - w.start ≡ length new)
      × (record { bytes = splice w new g.bytes; dirty = g.dirty ++ w ∷ [] } ≡ g')
unfolding write
write-returns w new g g' h =
    let a = Bool-cases (leb w.start w.end) in
    let b = Bool-cases (leb w.end (length g.bytes)) in
    let c = Bool-cases (w.end - w.start == length new) in
    (ground arith, ground arith, ground arith, ground arith)

pub write_within :
    (w : Range) (new : Bytes) (g : GeckoDatas)
    → w.start ≤ w.end
    → w.end ≤ length g.bytes
    → w.end - w.start ≡ length new
    → write w new g ≡ returns (record { bytes = splice w new g.bytes; dirty = g.dirty ++ w ∷ [] })
unfolding write
write_within w new g h k e = ground arith
