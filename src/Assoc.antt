-- ===== src/Assoc.antt =====
-- `HashMap` as an association list, in some order of its entries.
use mathlib.Core.Logic.{ite, if_pos, if_neg}
use intouch2_mqtt.Base.{
  suc, ◌+◌, ◌≡◌, ◌≢◌, ◌⊎◌, inl, inr, refl, Option, none, some, List, [], ◌∷◌, arith, length, All,
}

module _ {ℓ} {K V : Type ℓ} (dec : Discrete K) where
  -- `HashMap::get`
  unfoldable pub find : K → List (K × V) → Option V
  find k [] = none
  find k ((j, v) ∷ m) = ite (dec k j) (some v) (find k m)

  -- `HashMap::remove`
  unfoldable pub erase : K → List (K × V) → List (K × V)
  erase k [] = []
  erase k ((j, v) ∷ m) = let rest = erase k m in ite (dec k j) rest ((j, v) ∷ rest)

  -- `HashMap::insert`
  unfoldable pub put : K → V → List (K × V) → List (K × V)
  put k v m = (k, v) ∷ erase k m

  -- No key stands twice.
  abbrev pub Unique : List (K × V) → Type ℓ
  Unique [] = Unit
  Unique ((j, v) ∷ m) = (find j m ≡ none) × Unique m

  pub find-erase : (j k : K) (m : List (K × V)) → find j (erase k m) ≡ ite (dec j k) none (find j m)
  unfolding find erase
  find-erase j k [] = ground arith
  find-erase j k ((i, v) ∷ m) = ground (arith, find-erase j k m)

  pub find-erase_self : (k : K) (m : List (K × V)) → find k (erase k m) ≡ none
  find-erase_self k m = rw (find-erase k k m) (if_pos (dec k k) refl _ _)

  pub find-erase_ne : (j k : K) (m : List (K × V)) → j ≢ k → find j (erase k m) ≡ find j m
  find-erase_ne j k m h = rw (find-erase j k m) (if_neg (dec j k) h _ _)

  pub find-put :
      (j k : K) (v : V) (m : List (K × V)) → find j (put k v m) ≡ ite (dec j k) (some v) (find j m)
  unfolding put find
  find-put j k v m = ground (arith, find-erase j k m)

  pub erase_absent : (k : K) (m : List (K × V)) → find k m ≡ none → erase k m ≡ m
  unfolding find erase
  erase_absent k [] h = refl
  erase_absent k ((j, v) ∷ m) h = ground (arith, erase_absent k m)

  pub Unique-erase : (k : K) (m : List (K × V)) → Unique m → Unique (erase k m)
  unfolding erase
  Unique-erase k [] u = tt
  Unique-erase k ((j, v) ∷ m) u = elim (dec k j) [
    | yes p ↦ rw (if_pos _ p) (Unique-erase k m u.1)
    | no p ↦ rw (if_neg _ p) (ground (arith, find-erase j k m, u.0), Unique-erase k m u.1)
  ]

  pub Unique-put : (k : K) (v : V) (m : List (K × V)) → Unique m → Unique (put k v m)
  unfolding put
  Unique-put k v m u = (find-erase_self k m, Unique-erase k m u)

  pub length-erase :
      (k : K) (v : V) (m : List (K × V))
      → Unique m
      → find k m ≡ some v
      → length (erase k m) + 1 ≡ length m
  unfolding find erase
  length-erase k v [] u h = cc
  length-erase k v ((j, w) ∷ m) u h = ground (arith, erase_absent k m, length-erase k v m u.1)

  -- An entry behind an erasure was there, under another key.
  pub find-erase-some :
      (j k : K) (m : List (K × V)) {v : V}
      → find j (erase k m) ≡ some v
      → (j ≢ k) × (find j m ≡ some v)
  find-erase-some j k m h =
      let e = find-erase j k m in
      elim (dec j k) [ yes p ↦ absurd (ground arith) | no p ↦ (p, ground arith) ]

  pub length-put :
      (k : K) (v : V) (m : List (K × V)) → find k m ≡ none → length (put k v m) ≡ suc (length m)
  unfolding put
  length-put k v m h = rw (erase_absent k m h)

  -- An entry behind an insertion is the new one, or was there under another key.
  pub find-put-some :
      (j k : K) (w : V) (m : List (K × V)) {v : V}
      → find j (put k w m) ≡ some v
      → ((j ≡ k) × (w ≡ v)) ⊎ ((j ≢ k) × (find j m ≡ some v))
  find-put-some j k w m h =
      let e = find-put j k w m in
      elim (dec j k) [ yes p ↦ inl (p, ground arith) | no p ↦ inr (p, ground arith) ]

  pub find-erase-none : (j k : K) (m : List (K × V)) → find j m ≡ none → find j (erase k m) ≡ none
  find-erase-none j k m h = let e = find-erase j k m in ground arith

  find_behind :
      (j : K) (w : V) (l m : List (K × V))
      → find j m ≡ none
      → All (λ (e : K × V). find e.0 m ≡ some e.1) l
      → All (λ (e : K × V). find e.0 ((j, w) ∷ m) ≡ some e.1) l
  unfolding find
  find_behind j w [] m h a = tt
  find_behind j w ((k, v) ∷ l) m h a = (ground (arith, a.0), find_behind j w l m h a.1)

  -- Each entry of a map without repetition is what a look-up finds.
  pub find_entries : (m : List (K × V)) → Unique m → All (λ (e : K × V). find e.0 m ≡ some e.1) m
  unfolding find
  find_entries [] u = tt
  find_entries ((j, w) ∷ m) u =
      (if_pos (dec j j) refl _ _, find_behind j w m m u.0 (find_entries m u.1))
