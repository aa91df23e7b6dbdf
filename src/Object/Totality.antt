-- ===== src/Object/Totality.antt =====
-- What reading any bytes as a package can end in.
use native.Mathlib.Nat.{le_trans}
use intouch2_mqtt.Base.{
  ℕ, zero, suc, ◌≤◌, inl, inr, Option, none, some, List, [], ◌∷◌, ◌++◌, arith, Bytes, length, take,
  subst, sym, length-drop, leb, Bool-cases, beq, ◌==◌,
}
use intouch2_mqtt.Nom.{
  IResult, ok, error, failure, panic, out_of_fuel, incomplete, ◌>>=◌, Parser, or_else, strip,
  tagged, Nom,
}
use intouch2_mqtt.Object.{
  MemberType, u8, u16, watercare_type, slice, status_changes, reminders, array, Member, tag, member,
  Package, simple, tailing, struct, Kind, format_of, watercare_from_repr, reminder_from_repr,
}
use intouch2_mqtt.Object.Codec.{
  parse_array, parse_loop, parse_list, parse_valid, or_failure, parse_change, parse_watercare_type,
  parse_reminder, parse_member, parse_members, parse_package, parse_inner, parse, parse_order,
}
use intouch2_mqtt.Object.Dispatch.{first_match, parse-first_match}

-- The call ends without the outcomes that the program cannot show, and leaves `k` bytes at most.
abbrev Within {ℓ} : {A : Type ℓ} → ℕ → IResult (Bytes × A) → Type 0
Within k (ok (rest, a)) = length rest ≤ k
Within k error = Unit
Within k failure = Unit
Within k panic = Unit
Within k out_of_fuel = ⊥
Within k (incomplete m) = ⊥

Within-bind {ℓ κ} :
    {A : Type ℓ} {B : Type κ} (j k : ℕ) (m : IResult (Bytes × A))
    (f : Bytes × A → IResult (Bytes × B))
    → Within k m
    → ((rest : Bytes) (a : A) → length rest ≤ k → Within j (f (rest, a)))
    → Within j (m >>= f)
Within-bind j k (ok (rest, a)) f w h = h rest a w
Within-bind j k error f w h = tt
Within-bind j k failure f w h = tt
Within-bind j k panic f w h = tt
Within-bind j k out_of_fuel f w h = w
Within-bind j k (incomplete m) f w h = w

Within-mono {ℓ} :
    {A : Type ℓ} {j : ℕ} (k : ℕ) (m : IResult (Bytes × A)) → k ≤ j → Within k m → Within j m
Within-mono k (ok (rest, a)) h w = le_trans w h
Within-mono k error h w = tt
Within-mono k failure h w = tt
Within-mono k panic h w = tt
Within-mono k out_of_fuel h w = w
Within-mono k (incomplete m) h w = w

Within-or_failure {ℓ κ} :
    {A : Type ℓ} {B : Type κ} (k : ℕ) (o : Option A) (f : A → IResult (Bytes × B))
    → ((a : A) → Within k (f a))
    → Within k (or_failure o >>= f)
Within-or_failure k none f h = tt
Within-or_failure k (some a) f h = h a

Within-tagged : (t u i : Bytes) → Within (length i) (tagged u (strip t i))
Within-tagged [] u i = omega arith
Within-tagged (x ∷ t) u [] = tt
Within-tagged (x ∷ t) u (y ∷ i) = elim (Bool-cases (x == y)) [
  | inl e ↦ rw e (Within-mono (length i) (tagged u (strip t i)) (omega arith) (Within-tagged t u i))
  | inr e ↦ rw e tt
]

Within-parse_array : (k : ℕ) (i : Bytes) → Within (length i) (parse_array k i)
unfolding parse_array
Within-parse_array k i = elim (Bool-cases (leb k (length i))) [
  | inl e ↦ rw e (omega (arith, length-drop k i))
  | inr e ↦ rw e tt
]

Within-parse_valid : (i : Bytes) (v : ℕ) → Within (length i) (parse_valid i v)
unfolding parse_valid
Within-parse_valid i v = ground arith

module _ (n : Nom) where
  Within-tag : (t i : Bytes) → Within (length i) (n.tag t i)
  Within-tag t i = rw (n.tag_lem t i) (Within-tagged t t i)

  Within-u8 : (k : ℕ) (i : Bytes) → length i ≤ suc k → Within k (n.u8 i)
  Within-u8 k [] h = rw n.u8-nil tt
  Within-u8 k (x ∷ i) h = rw n.u8-cons (omega arith)

  Within-be_u16 : (k : ℕ) (i : Bytes) → length i ≤ suc k → Within k (n.be_u16 i)
  Within-be_u16 k [] h = rw n.be_u16-nil tt
  Within-be_u16 k (x ∷ []) h = rw n.be_u16-one tt
  Within-be_u16 k (x ∷ y ∷ i) h = rw n.be_u16-cons (omega arith)

  Within-parse_change : (k : ℕ) (i : Bytes) → length i ≤ suc k → Within k (parse_change n i)
  unfolding parse_change
  Within-parse_change k i h = Within-bind k k (n.be_u16 i) _ (Within-be_u16 k i h) λ i₁ c h₁.
      Within-bind k k (parse_array 2 i₁) _
        (Within-mono (length i₁) (parse_array 2 i₁) h₁ (Within-parse_array 2 i₁)) λ i₂ b h₂. h₂

  Within-parse_reminder : (k : ℕ) (i : Bytes) → length i ≤ suc k → Within k (parse_reminder n i)
  unfolding parse_reminder
  Within-parse_reminder k i h = Within-bind k k (n.u8 i) _ (Within-u8 k i h) λ i₁ index h₁.
      Within-or_failure k (reminder_from_repr index) _ λ index'.
        Within-bind k k (n.be_u16 i₁) _ (Within-be_u16 k i₁ (omega arith)) λ i₂ info h₂.
          Within-bind k k (n.tag (1 ∷ []) i₂) _
            (Within-mono (length i₂) (n.tag (1 ∷ []) i₂) h₂ (Within-tag (1 ∷ []) i₂))
            λ i₃ _ h₃. Within-bind k k (n.u8 i₃) _ (Within-u8 k i₃ (omega arith)) λ i₄ v h₄.
              Within-bind k k (parse_valid i₄ v) _
                (Within-mono (length i₄) (parse_valid i₄ v) h₄ (Within-parse_valid i₄ v))
                λ i₅ v' h₅. h₅

  Within-parse_watercare :
      (k : ℕ) (i : Bytes) → length i ≤ suc k → Within k (parse_watercare_type n i)
  unfolding parse_watercare_type
  Within-parse_watercare k i h =
      Within-bind k k (n.u8 i) _ (Within-u8 k i h)
        λ i₁ parsed h₁. Within-or_failure k (watercare_from_repr parsed) _ λ w. h₁

-- An element parser that takes a byte or more uses up a list in as many rounds as it has bytes.
Within-parse_loop :
    {A : Type 0} (p : Parser A)
    → ((k : ℕ) (i : Bytes) → length i ≤ suc k → Within k (p i))
    → (fuel : ℕ) (i : Bytes) → length i ≤ fuel
    → Within 0 (parse_loop p fuel i)
unfolding parse_loop
Within-parse_loop p shrinks fuel [] h = omega arith
Within-parse_loop p shrinks zero (x ∷ i) h = absurd (omega arith)
Within-parse_loop p shrinks (suc fuel) (x ∷ i) h =
    Within-bind 0 (length i) (p (x ∷ i)) _ (shrinks (length i) (x ∷ i) (omega arith)) λ i₁ v h₁.
      Within-bind 0 0 (parse_loop p fuel i₁) _ (Within-parse_loop p shrinks fuel i₁ (omega arith))
        λ i₂ vs h₂. h₂

-- What is said of `Within`, and a value, a final failure or a panic.
abbrev pub Concludes {ℓ} : {A : Type ℓ} → ℕ → IResult (Bytes × A) → Type 0
Concludes k (ok (rest, a)) = length rest ≤ k
Concludes k error = ⊥
Concludes k failure = Unit
Concludes k panic = Unit
Concludes k out_of_fuel = ⊥
Concludes k (incomplete m) = ⊥

Concludes-or_else {ℓ} :
    {A : Type ℓ} (k : ℕ) (r s : IResult (Bytes × A))
    → Within k r
    → Concludes k s
    → Concludes k (or_else r s)
Concludes-or_else k (ok (rest, a)) s w c = w
Concludes-or_else k error s w c = c
Concludes-or_else k failure s w c = tt
Concludes-or_else k panic s w c = tt
Concludes-or_else k out_of_fuel s w c = w
Concludes-or_else k (incomplete m) s w c = w

module _ (n : Nom) where
  unknown_accepts :
      (i : Bytes) → Concludes (length i) (or_else (parse_inner n Kind.unknown i) error)
  unfolding parse_inner
  unknown_accepts i = rw (n.tag_lem [] i) (omega arith)

  Within-parse_member : (t : MemberType) (i : Bytes) → Within (length i) (parse_member n t i)
  unfolding parse_member parse_list
  Within-parse_member u8 i = Within-u8 n (length i) i (omega arith)
  Within-parse_member u16 i = Within-be_u16 n (length i) i (omega arith)
  Within-parse_member watercare_type i = Within-parse_watercare n (length i) i (omega arith)
  Within-parse_member slice i =
      Within-mono 0 (parse_loop n.u8 (length i) i) (omega arith)
        (Within-parse_loop n.u8 (Within-u8 n) (length i) i (omega arith))
  Within-parse_member status_changes i =
      Within-mono 0 (parse_loop (parse_change n) (length i) i) (omega arith)
        (Within-parse_loop (parse_change n) (Within-parse_change n) (length i) i (omega arith))
  Within-parse_member reminders i =
      Within-mono 0 (parse_loop (parse_reminder n) (length i) i) (omega arith)
        (Within-parse_loop (parse_reminder n) (Within-parse_reminder n) (length i) i (omega arith))
  Within-parse_member (array k) i = Within-parse_array k i

  Within-parse_members :
      (ms : List Member) (k : ℕ) (i : Bytes) → length i ≤ k → Within k (parse_members n ms i)
  unfolding parse_members
  Within-parse_members [] k i h = h
  Within-parse_members (tag t ∷ ms) k i h =
      Within-bind k k (n.tag t i) _ (Within-mono (length i) (n.tag t i) h (Within-tag n t i))
        λ i₁ _ h₁. Within-parse_members ms k i₁ h₁
  Within-parse_members (member name t ∷ ms) k i h =
      Within-bind k k (parse_member n t i) _
        (Within-mono (length i) (parse_member n t i) h (Within-parse_member t i))
        λ i₁ v h₁.
          Within-bind k k (parse_members n ms i₁) _ (Within-parse_members ms k i₁ h₁) λ i₂ vs h₂. h₂

  Within-parse_package : (p : Package) (i : Bytes) → Within (length i) (parse_package n p i)
  unfolding parse_package
  Within-parse_package (simple verb) i = elim (Bool-cases (beq i verb)) [
    | inl e ↦ rw e (omega arith)
    | inr e ↦ rw e tt
  ]
  Within-parse_package (tailing verb) i =
      Within-bind (length i) (length i) (n.tag verb i) _ (Within-tag n verb i)
        λ i₁ _ h₁. omega arith
  Within-parse_package (struct ms) i = Within-parse_members ms (length i) i (omega arith)

  Within-parse_inner : (k : Kind) (i : Bytes) → Within (length i) (parse_inner n k i)
  unfolding parse_inner
  Within-parse_inner k i =
      Within-bind (length i) (length i) (parse_package n (format_of k) i) _
        (Within-parse_package (format_of k) i) λ i₁ v h₁. h₁

  -- The variants' parsers in turn, then one that accepts anything.
  Concludes-first_match :
      (ks : List Kind) (i : Bytes)
      → Concludes (length i) (first_match n (ks ++ Kind.unknown ∷ []) i)
  unfolding first_match
  Concludes-first_match [] i = unknown_accepts i
  Concludes-first_match (k ∷ ks) i =
      Concludes-or_else (length i) (parse_inner n k i) _ (Within-parse_inner k i)
        (Concludes-first_match ks i)

  -- Reading the package of any byte string ends in a variant with no more bytes left than there
  -- were, in a failure, or in a panic: it never runs out of fuel, never asks for more input, and
  -- never ends in the recoverable error that falls through all alternatives.
  pub parse-Concludes : (i : Bytes) → Concludes (length i) (parse n i)
  parse-Concludes i =
      subst (Concludes (length i)) (sym (parse-first_match n i))
        (Concludes-first_match (take 32 parse_order) i)
