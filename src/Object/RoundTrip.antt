-- ===== src/Object/RoundTrip.antt =====
-- Reading what a member, a struct and a package write.
use intouch2_mqtt.Base.{
  ℕ, zero, suc, ◌*◌, ◌+◌, ◌/◌, ◌%◌, ◌≤◌, ◌≡◌, refl, ap, ◌∙◌, true, some, List, [], ◌∷◌, ◌++◌,
  append-nil, arith, Bytes, length, length-append, take-append, drop-append, All, beq_refl,
  and_left, and_right,
}
use intouch2_mqtt.Nom.{ok, strip, tagged, Nom}
use intouch2_mqtt.Object.{
  StatusChange, WatercareType, economy, filter_cycle, MemberType, u8, u16, watercare_type, slice,
  status_changes, reminders, array, ActualType, Member, tag, member, Fields, Package, simple,
  tailing, struct, Payload,
}
use intouch2_mqtt.Object.Schema.{
  is_sized, is_ordered, is_ordered_package, IsExact, AreExact, IsExactPayload,
}
use intouch2_mqtt.Object.Codec.{
  parse_array, parse_loop, parse_list, compose_list, compose_change, compose_member,
  compose_members, compose_package, parse_change, parse_member, parse_members, parse_package,
}

pub strip-append : (t rest : Bytes) → strip t (t ++ rest) ≡ some rest
strip-append [] rest = refl
strip-append (x ∷ t) rest = ground (arith, strip-append t rest)

u16-bytes : (v : ℕ) → v / 256 * 256 + v % 256 ≡ v
u16-bytes v = omega arith

parse_array-append :
    (k : ℕ) (bytes rest : Bytes)
    → length bytes ≡ k
    → parse_array k (bytes ++ rest) ≡ ok (rest, bytes)
unfolding parse_array
parse_array-append k bytes rest h =
    rw (← h)
      (ground (arith, length-append bytes rest, take-append bytes rest, drop-append bytes rest))

module _ (n : Nom) where
  pub tag-append : (t rest : Bytes) → n.tag t (t ++ rest) ≡ ok (rest, t)
  tag-append t rest = n.tag_lem t (t ++ rest) ∙ ap (tagged t) (strip-append t rest)

  parse_change-compose :
      (c : StatusChange) (rest : Bytes)
      → length c.bytes ≡ 2
      → parse_change n (compose_change c ++ rest) ≡ ok (rest, c)
  unfolding parse_change compose_change
  parse_change-compose c rest h =
      simp (n.be_u16-cons, parse_array-append 2 c.bytes rest h, u16-bytes c.change)

  changes_loop :
      (fuel : ℕ) (cs : List StatusChange)
      → length (compose_list compose_change cs) ≤ fuel
      → All (λ (c : StatusChange). length c.bytes ≡ 2) cs
      → parse_loop (parse_change n) fuel (compose_list compose_change cs) ≡ ok ([], cs)
  unfolding parse_loop compose_list compose_change
  changes_loop fuel [] h exact = refl
  changes_loop zero (c ∷ cs) h exact = absurd (omega arith)
  changes_loop (suc fuel) (c ∷ cs) h exact = simp (
    parse_change-compose c (compose_list compose_change cs) exact.0,
    changes_loop fuel cs (omega (arith, length-append c.bytes (compose_list compose_change cs)))
        exact.1,
  )

  watercare-compose :
      (w : WatercareType) (rest : Bytes)
      → parse_member n watercare_type (compose_member watercare_type w ++ rest) ≡ ok (rest, w)
  unfolding parse_member compose_member
  watercare-compose economy rest = simp n.u8-cons
  watercare-compose filter_cycle rest = simp n.u8-cons

  -- A member of fixed size reads its bytes and leaves what follows.
  parse_member-sized :
      (t : MemberType) (v : ActualType t) (rest : Bytes)
      → is_sized t ≡ true
      → IsExact t v
      → parse_member n t (compose_member t v ++ rest) ≡ ok (rest, v)
  unfolding parse_member compose_member
  parse_member-sized u8 v rest s exact = n.u8-cons v rest
  parse_member-sized u16 v rest s exact = simp (n.be_u16-cons, u16-bytes v)
  parse_member-sized watercare_type v rest s exact = watercare-compose v rest
  parse_member-sized (array k) v rest s exact = parse_array-append k v rest exact
  parse_member-sized slice v rest s exact = cc
  parse_member-sized status_changes v rest s exact = cc
  parse_member-sized reminders v rest s exact = cc

  -- Bytes are composed and read one by one.
  pub compose_list-bytes : (v : Bytes) → compose_list (λ byte. byte ∷ []) v ≡ v
  unfolding compose_list
  compose_list-bytes [] = refl
  compose_list-bytes (x ∷ v) = ap (◌∷◌ x) (compose_list-bytes v)

  bytes_loop : (fuel : ℕ) (v : Bytes) → length v ≤ fuel → parse_loop n.u8 fuel v ≡ ok ([], v)
  unfolding parse_loop
  bytes_loop zero [] h = refl
  bytes_loop zero (x ∷ v) h = absurd (omega arith)
  bytes_loop (suc fuel) [] h = refl
  bytes_loop (suc fuel) (x ∷ v) h = rw (n.u8-cons x v, bytes_loop fuel v (omega arith)) refl

  -- Any member reads its bytes at the end of the input.
  parse_member-last :
      (t : MemberType) (v : ActualType t)
      → IsExact t v
      → parse_member n t (compose_member t v) ≡ ok ([], v)
  unfolding parse_member compose_member parse_list
  parse_member-last u8 v exact = n.u8-cons v []
  parse_member-last u16 v exact = simp (n.be_u16-cons, u16-bytes v)
  parse_member-last watercare_type v exact = watercare-compose v []
  parse_member-last (array k) v exact = rw (append-nil v) at (parse_array-append k v [] exact)
  parse_member-last slice v exact = rw (compose_list-bytes v) (bytes_loop _ v (omega arith))
  parse_member-last status_changes v exact = changes_loop _ v (omega arith) exact
  parse_member-last reminders v exact = rw exact

  parse_members-compose :
      (ms : List Member) (v : Fields ms)
      → is_ordered ms ≡ true
      → AreExact ms v
      → parse_members n ms (compose_members ms v) ≡ ok ([], v)
  unfolding parse_members compose_members
  parse_members-compose [] v o exact = refl
  parse_members-compose (tag t ∷ ms) v o exact =
      simp (tag-append, parse_members-compose ms v o exact)
  parse_members-compose (member name t ∷ []) v o exact =
      simp (append-nil, parse_member-last t v.0 exact.0)
  parse_members-compose (member name t ∷ m ∷ ms) v o exact = simp (
    parse_member-sized t v.0 (compose_members (m ∷ ms) v.1) (and_left _ _ o) exact.0,
    parse_members-compose (m ∷ ms) v.1 (and_right (is_sized t) _ o) exact.1,
  )

  -- What a package writes is read back whole by its own parser.
  pub parse_package-compose :
      (p : Package) (v : Payload p)
      → is_ordered_package p ≡ true
      → IsExactPayload p v
      → parse_package n p (compose_package p v) ≡ ok ([], v)
  unfolding parse_package compose_package
  parse_package-compose (simple verb) v o exact = rw (beq_refl verb)
  parse_package-compose (tailing verb) v o exact = simp tag-append
  parse_package-compose (struct ms) v o exact = parse_members-compose ms v o exact
