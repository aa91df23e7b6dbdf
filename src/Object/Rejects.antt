-- ===== src/Object/Rejects.antt =====
-- When the parser of one package refuses what another package writes: the bytes that both fix
-- differ somewhere.
use intouch2_mqtt.Base.{
  ℕ, ◌≡◌, refl, ◌⊎◌, inl, inr, Bool, true, false, not, Option, none, some, List, [], ◌∷◌, ◌++◌,
  append-nil, arith, Bytes, if◌then◌else◌, ◌==◌, beq, Bool-cases,
}
use intouch2_mqtt.Nom.{error, strip, Nom}
use intouch2_mqtt.Object.{
  u8, u16, watercare_type, slice, status_changes, reminders, array, Member, tag, member, Fields,
  Package, simple, tailing, struct, Payload,
}
use intouch2_mqtt.Object.Codec.{
  compose_members, compose_package, parse_member, parse_members, parse_package,
}

-- The first bytes of a package: `none` where any byte may stand.
abbrev pub Shape : Type 0
Shape = List (Option ℕ)

abbrev pub fixed : Bytes → Shape → Shape
fixed [] s = s
fixed (x ∷ t) s = some x ∷ fixed t s

abbrev pub lead : List Member → Shape
lead [] = []
lead (tag t ∷ ms) = fixed t (lead ms)
lead (member _ u8 ∷ ms) = none ∷ lead ms
lead (member _ u16 ∷ ms) = none ∷ none ∷ lead ms
lead (member _ _ ∷ ms) = []

abbrev pub lead_package : Package → Shape
lead_package (simple verb) = fixed verb []
lead_package (tailing verb) = fixed verb []
lead_package (struct ms) = lead ms

-- Two shapes that fix different bytes at one place.
abbrev pub clash : Shape → Shape → Bool
clash [] t = false
clash (o ∷ s) [] = false
clash (some x ∷ s) (some y ∷ t) = if x == y then clash s t else true
clash (some x ∷ s) (none ∷ t) = clash s t
clash (none ∷ s) (o ∷ t) = clash s t

-- The parser of the first package refuses what the second one writes.
abbrev pub rejects : Package → Package → Bool
rejects (simple u) (simple v) = not (beq v u)
rejects (simple u) q = clash (lead_package (simple u)) (lead_package q)
rejects p q = clash (lead_package p) (lead_package q)

abbrev pub Stands : Option ℕ → ℕ → Type 0
Stands none y = Unit
Stands (some x) y = x ≡ y

-- The input begins with bytes of the shape.
abbrev pub Has : Shape → Bytes → Type 0
Has [] i = Unit
Has (o ∷ s) [] = ⊥
Has (o ∷ s) (y ∷ i) = Stands o y × Has s i

pub Has-fixed : (t : Bytes) (s : Shape) (i : Bytes) → Has s i → Has (fixed t s) (t ++ i)
Has-fixed [] s i h = h
Has-fixed (x ∷ t) s i h = (refl, Has-fixed t s i h)

Has-lead : (ms : List Member) (v : Fields ms) → Has (lead ms) (compose_members ms v)
unfolding compose_members
Has-lead [] v = tt
Has-lead (tag t ∷ ms) v = Has-fixed t (lead ms) (compose_members ms v) (Has-lead ms v)
Has-lead (member _ u8 ∷ ms) v = (tt, Has-lead ms v.1)
Has-lead (member _ u16 ∷ ms) v = (tt, (tt, Has-lead ms v.1))
Has-lead (member _ watercare_type ∷ ms) v = tt
Has-lead (member _ slice ∷ ms) v = tt
Has-lead (member _ status_changes ∷ ms) v = tt
Has-lead (member _ reminders ∷ ms) v = tt
Has-lead (member _ (array k) ∷ ms) v = tt

Has-lead_package : (p : Package) (v : Payload p) → Has (lead_package p) (compose_package p v)
unfolding compose_package
Has-lead_package (simple verb) v = rw (append-nil verb) at (Has-fixed verb [] [] tt)
Has-lead_package (tailing verb) v = Has-fixed verb [] v tt
Has-lead_package (struct ms) v = Has-lead ms v

abbrev Left : Bytes → Shape → Bytes → Type 0
Left u s i =
    (rest : Bytes) × (t : Shape) × (strip u i ≡ some rest) × (clash s t ≡ true) × Has t rest

-- A tag fails on the input, or the clash lies behind it.
tag_clash :
    (u : Bytes) (s t : Shape) (i : Bytes)
    → clash (fixed u s) t ≡ true
    → Has t i
    → (strip u i ≡ none) ⊎ Left u s i
tag_clash [] s t i c h = inr (i, t, refl, c, h)
tag_clash (x ∷ u) s [] i c h = cc
tag_clash (x ∷ u) s (o ∷ t) [] c h = inl refl
tag_clash (x ∷ u) s (none ∷ t) (y ∷ i) c h = elim (Bool-cases (x == y)) [
  | inl e ↦ rw e (tag_clash u s t i c h.1)
  | inr e ↦ rw e (inl refl)
]
tag_clash (x ∷ u) s (some z ∷ t) (y ∷ i) c h = elim (Bool-cases (x == y)) [
  | inl e ↦ rw e (tag_clash u s t i (ground (arith, h.0)) h.1)
  | inr e ↦ rw e (inl refl)
]

beq-clash : (u i : Bytes) (t : Shape) → clash (fixed u []) t ≡ true → Has t i → beq i u ≡ false
beq-clash [] i t c h = cc
beq-clash (x ∷ u) i [] c h = cc
beq-clash (x ∷ u) [] (o ∷ t) c h = refl
beq-clash (x ∷ u) (y ∷ i) (none ∷ t) c h = ground (arith, beq-clash u i t)
beq-clash (x ∷ u) (y ∷ i) (some z ∷ t) c h = ground (arith, beq-clash u i t)

module _ (n : Nom) where
  parse_members-clash :
      (ms : List Member) (t : Shape) (i : Bytes)
      → clash (lead ms) t ≡ true
      → Has t i
      → parse_members n ms i ≡ error
  unfolding parse_members parse_member
  parse_members-clash [] t i c h = cc
  parse_members-clash (tag u ∷ ms) t i c h = elim (tag_clash u (lead ms) t i c h) [
    | inl miss ↦ simp (n.tag_lem, miss)
    | inr (rest, t', found, c', h') ↦ simp (n.tag_lem, found, parse_members-clash ms t' rest c' h')
  ]
  parse_members-clash (member _ u8 ∷ ms) [] i c h = cc
  parse_members-clash (member _ u8 ∷ ms) (o ∷ t) [] c h = simp n.u8-nil
  parse_members-clash (member _ u8 ∷ ms) (o ∷ t) (y ∷ i) c h =
      simp (n.u8-cons, parse_members-clash ms t i c h.1)
  parse_members-clash (member _ u16 ∷ ms) [] i c h = cc
  parse_members-clash (member _ u16 ∷ ms) (o ∷ t) [] c h = simp n.be_u16-nil
  parse_members-clash (member _ u16 ∷ ms) (o ∷ t) (y ∷ []) c h = simp n.be_u16-one
  parse_members-clash (member _ u16 ∷ ms) (o ∷ []) (y ∷ z ∷ i) c h = cc
  parse_members-clash (member _ u16 ∷ ms) (o ∷ o' ∷ t) (y ∷ z ∷ i) c h =
      simp (n.be_u16-cons, parse_members-clash ms t i c h.1.1)
  parse_members-clash (member _ watercare_type ∷ ms) t i c h = cc
  parse_members-clash (member _ slice ∷ ms) t i c h = cc
  parse_members-clash (member _ status_changes ∷ ms) t i c h = cc
  parse_members-clash (member _ reminders ∷ ms) t i c h = cc
  parse_members-clash (member _ (array k) ∷ ms) t i c h = cc

  -- A package's parser gives a recoverable error on an input that its fixed bytes exclude.
  pub parse_package-clash :
      (p : Package) (t : Shape) (i : Bytes)
      → clash (lead_package p) t ≡ true
      → Has t i
      → parse_package n p i ≡ error
  unfolding parse_package
  parse_package-clash (simple u) t i c h = rw (beq-clash u i t c h)
  parse_package-clash (tailing u) t i c h = elim (tag_clash u [] t i c h) [
    | inl miss ↦ simp (n.tag_lem, miss)
    | inr (rest, t', found, c', h') ↦ cc
  ]
  parse_package-clash (struct ms) t i c h = parse_members-clash ms t i c h

  -- A refused package's bytes give a recoverable error.
  pub parse_package-rejects :
      (p q : Package) (v : Payload q)
      → rejects p q ≡ true
      → parse_package n p (compose_package q v) ≡ error
  unfolding parse_package compose_package
  parse_package-rejects (simple u) (simple w) v c = ground arith
  parse_package-rejects (simple u) (tailing w) v c =
      parse_package-clash (simple u) _ (w ++ v) c (Has-lead_package (tailing w) v)
  parse_package-rejects (simple u) (struct ms) v c =
      parse_package-clash (simple u) _ (compose_members ms v) c (Has-lead ms v)
  parse_package-rejects (tailing u) q v c =
      parse_package-clash (tailing u) _ (compose_package q v) c (Has-lead_package q v)
  parse_package-rejects (struct ms) q v c =
      parse_package-clash (struct ms) _ (compose_package q v) c (Has-lead_package q v)
