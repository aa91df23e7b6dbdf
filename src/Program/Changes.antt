-- ===== src/Program/Changes.antt =====
-- The published changes of the memory carry all of it.
use intouch2_mqtt.Base.{
  ℕ, zero, suc, ◌+◌, ◌<◌, ◌≡◌, refl, ap, sym, ◌∙◌, Option, some, List, [], ◌∷◌, ◌++◌, Bytes, ◌==◌,
  ==_iff, ==_ne, ==_refl, if◌then◌else◌, length, get_elem?, arith, All, Bool-cases, inl, inr,
}
use intouch2_mqtt.Outcome.{returns}
use intouch2_mqtt.Program.{differences, changes}

-- What a listener of the topics knows of a byte after some changes.
abbrev pub heard : List (ℕ × ℕ) → (ℕ → Option ℕ) → ℕ → Option ℕ
heard [] known = known
heard ((i, value) ∷ changed) known = heard changed (λ j. if j == i then some value else known j)

heard-append :
    (xs ys : List (ℕ × ℕ)) (known : ℕ → Option ℕ) (j : ℕ)
    → heard (xs ++ ys) known j ≡ heard ys (heard xs known) j
heard-append [] ys known j = refl
heard-append ((i, value) ∷ xs) ys known j = heard-append xs ys _ j

-- What a listener knows of the bytes from an index on.
abbrev Knows : ℕ → (ℕ → Option ℕ) → Bytes → Type 0
Knows i known bytes = (k : ℕ) → known (i + k) ≡ get_elem? bytes k

-- The changes from an index on: they tell nothing before it, and the bytes from it on.
abbrev Tells : ℕ → (ℕ → Option ℕ) → Bytes → List (ℕ × ℕ) → Type 0
Tells i known bytes changed =
    ((j : ℕ) → j < i → heard changed known j ≡ known j) × Knows i (heard changed known) bytes

abbrev told : ℕ → ℕ → (ℕ → Option ℕ) → ℕ → Option ℕ
told i new known j = if j == i then some new else known j

-- Behind the first byte, which the listener has now.
Tells-first :
    (i new : ℕ) (known known' : ℕ → Option ℕ) (bytes : Bytes) (changed : List (ℕ × ℕ))
    → ((j : ℕ) → j < i → known' j ≡ known j)
    → known' i ≡ some new
    → Tells (i + 1) known' bytes changed
    → ((j : ℕ) → j < i → heard changed known' j ≡ known j)
      × Knows i (heard changed known') (new ∷ bytes)
Tells-first i new known known' bytes changed before here (low, high) =
    (λ j h. low j (omega arith) ∙ before j h, λ k. at k)
  where
    at : (k : ℕ) → heard changed known' (i + k) ≡ get_elem? (new ∷ bytes) k
    at zero =
        let same : i + 0 ≡ i = omega arith in
        ap (heard changed known') same ∙ low i (omega arith) ∙ here
    at (suc k) =
        let next : i + suc k ≡ (i + 1) + k = omega arith in ap (heard changed known') next ∙ high k

Knows-rest :
    (i old : ℕ) (known : ℕ → Option ℕ) (previous : Bytes)
    → Knows i known (old ∷ previous)
    → Knows (i + 1) known previous
Knows-rest i old known previous h k =
    let next : (i + 1) + k ≡ i + suc k = omega arith in ap known next ∙ h (suc k)

Knows-told :
    (i new : ℕ) (known : ℕ → Option ℕ) (previous : Bytes)
    → Knows (i + 1) known previous
    → Knows (i + 1) (told i new known) previous
Knows-told i new known previous h k = rw (==_ne ((i + 1) + k) i (λ e. omega arith)) (h k)

differences_lem :
    (i : ℕ) (previous bytes : Bytes) (known : ℕ → Option ℕ)
    → length previous ≡ length bytes
    → Knows i known previous
    → (changed : List (ℕ × ℕ)) × (differences i (length bytes) previous bytes ≡ returns changed)
      × Tells i known bytes changed
unfolding differences
differences_lem i [] [] known e h = ([], refl, (λ j k. refl, h))
differences_lem i [] (new ∷ bytes) known e h = absurd (omega arith)
differences_lem i (old ∷ previous) [] known e h = absurd (omega arith)
differences_lem i (old ∷ previous) (new ∷ bytes) known e h = elim (Bool-cases (old == new)) [
  | inl same ↦
      let (changed, run, tells) =
        differences_lem (i + 1) previous bytes known (omega arith)
          (Knows-rest i old known previous h) in
      (
        changed,
        rw (run, same) refl,
        Tells-first i new known known bytes changed (λ j k. refl)
            (here ∙ ap some ((==_iff old new).0 same)) tells,
      )
  | inr other ↦
      let (changed, run, tells) =
        differences_lem (i + 1) previous bytes (told i new known) (omega arith)
          (Knows-told i new known previous (Knows-rest i old known previous h)) in
      (
        (i, new) ∷ changed,
        rw (run, other) refl,
        Tells-first i new known (told i new known) bytes changed
            (λ j k. rw (==_ne j i (λ s. omega arith)) refl) (rw (==_refl i) refl) tells,
      )
]
  where
    here : known i ≡ some old
    here = let same : i ≡ i + 0 = omega arith in ap known same ∙ h 0

-- The last of a list of states, or the one before it.
abbrev pub last_state : Bytes → List Bytes → Bytes
last_state previous [] = previous
last_state previous (bytes ∷ states) = last_state bytes states

changes_from :
    (len : ℕ) (previous : Bytes) (states : List Bytes) (known : ℕ → Option ℕ)
    → length previous ≡ len
    → All (λ bytes. length bytes ≡ len) states
    → Knows 0 known previous
    → (changed : List (ℕ × ℕ)) × (changes len previous states ≡ returns changed)
      × Knows 0 (heard changed known) (last_state previous states)
unfolding changes
changes_from len previous [] known e all h = ([], refl, h)
changes_from len previous (bytes ∷ states) known e (e', all) h =
    let (now, run, (_, knows)) = differences_lem 0 previous bytes known (e ∙ sym e') h in
    let (later, run', knows') = changes_from len bytes states (heard now known) e' all knows in
    let here : differences 0 len previous bytes ≡ returns now =
      ap (λ l. differences 0 l previous bytes) (sym e') ∙ run in
    (now ++ later, rw (here, run') refl, λ k. heard-append now later known (0 + k) ∙ knows' k)

-- If the memory keeps its length, the loop that publishes its changes does not panic, and whoever
-- knew the first state and hears every published byte knows all bytes of the last state.
pub changes-heard :
    (len : ℕ) (previous : Bytes) (states : List Bytes)
    → length previous ≡ len
    → All (λ bytes. length bytes ≡ len) states
    → (changed : List (ℕ × ℕ)) × (changes len previous states ≡ returns changed)
      × ((j : ℕ) → heard changed (get_elem? previous) j ≡ get_elem? (last_state previous states) j)
changes-heard len previous states e all =
    let (changed, run, knows) =
      changes_from len previous states (get_elem? previous) e all
        (λ k. ap (get_elem? previous) (zero_add k)) in
    (changed, run, λ j. ap (heard changed (get_elem? previous)) (sym (zero_add j)) ∙ knows j)
  where
    zero_add : (k : ℕ) → 0 + k ≡ k
    zero_add k = omega arith
