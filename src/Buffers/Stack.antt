-- ===== src/Buffers/Stack.antt =====
-- The pool of buffers against the abstract view: a stack.
use intouch2_mqtt.Base.{
  ℕ, ◌+◌, ◌-◌, ◌≤◌, ◌≡◌, refl, true, false, ltb, Option, none, some, List, [], ◌∷◌, ◌==◌, ==_eq,
  ==_ne, if◌then◌else◌, length, arith, Bool-cases, inl, inr,
}
use intouch2_mqtt.Outcome.{returns}
use intouch2_mqtt.ForwardMap.{update}
use intouch2_mqtt.Buffers.{Buffers, take_or, release}

-- The first slots hold the stack, its top last.
abbrev pub Holds : {T : Type 0} → (ℕ → Option T) → List T → Type 0
Holds bufs [] = Unit
Holds bufs (x ∷ xs) = (bufs (length xs) ≡ some x) × Holds bufs xs

abbrev pub Represents : {T : Type 0} → Buffers T → List T → Type 0
Represents b xs = (b.size ≡ length xs) × Holds b.bufs xs

-- The abstract pool.
abbrev pub pop_or : {T : Type 0} → T → List T → T × List T
pop_or create [] = (create, [])
pop_or create (x ∷ xs) = (x, xs)

abbrev pub push_below : {T : Type 0} → ℕ → T → List T → List T
push_below count x xs = if length xs == count then xs else x ∷ xs

Holds-update :
    {T : Type 0} (bufs : ℕ → Option T) (i : ℕ) (o : Option T) (xs : List T)
    → length xs ≤ i
    → Holds bufs xs
    → Holds (update bufs i o) xs
Holds-update bufs i o [] h k = tt
Holds-update bufs i o (x ∷ xs) h (k, ks) =
    let other : (i == length xs) ≡ false = ==_ne i (length xs) (λ e. absurd (omega arith)) in
    (rw other k, Holds-update bufs i o xs (omega arith) ks)

-- If the slots of the pool hold a stack, taking a buffer gives the top of the stack, or a new one
-- where it is empty, never reads a slot that is not initialised, and leaves slots that hold the
-- rest of the stack.
pub take_or-Represents :
    {T : Type 0} (create : T) (b : Buffers T) (xs : List T)
    → Represents b xs
    → (b' : Buffers T) × (take_or create b ≡ returns ((pop_or create xs).0, b'))
      × Represents b' (pop_or create xs).1
unfolding take_or
take_or-Represents create b [] (s, h) = let empty = ==_eq b.size 0 s in (b, rw empty refl, (s, h))
take_or-Represents create b (x ∷ xs) (s, (top, h)) =
    let some_left : (b.size == 0) ≡ false = ==_ne b.size 0 (λ e. absurd (omega arith)) in
    let at : b.size - 1 ≡ length xs = omega arith in
    (
      record { bufs = update b.bufs (b.size - 1) none; size = b.size - 1 },
      rw (some_left, at, top) refl,
      (at, Holds-update b.bufs (b.size - 1) none xs (omega arith) h),
    )

-- If the slots of the pool hold a stack that is not higher than their count, releasing a buffer
-- does not panic; it puts the buffer on top, or drops it where every slot is taken, and the stack
-- is still not higher than the count.
pub release-Represents :
    {T : Type 0} (count : ℕ) (buf : T) (b : Buffers T) (xs : List T)
    → Represents b xs
    → length xs ≤ count
    → (b' : Buffers T) × (release count buf b ≡ returns b')
      × Represents b' (push_below count buf xs)
      × (length (push_below count buf xs) ≤ count)
unfolding release
release-Represents count buf b xs (s, h) l = elim (Bool-cases (length xs == count)) [
  | inl full ↦ (b, rw (s, full) refl, rw full (s, h), rw full l)
  | inr room ↦
      let below : ltb (length xs) count ≡ true = ground arith in
      (
        record { bufs = update b.bufs b.size (some buf); size = b.size + 1 },
        rw (s, room, below) refl,
        rw (s, room)
            (
              omega arith,
              (
                rw (==_eq (length xs) (length xs) refl) refl,
                Holds-update b.bufs (length xs) (some buf) xs (omega arith) h,
              ),
            ),
        rw room (ground arith),
      )
]
