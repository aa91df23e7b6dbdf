-- ===== src/Object/Dispatch.antt =====
-- `NetworkPackageData::parse` against an ordered choice, and with `compose`.
use intouch2_mqtt.Base.{
  ℕ, zero, suc, ◌≡◌, refl, ◌∙◌, ap, sym, subst, inl, inr, Bool, true, false, ◌&&◌, some, List, [],
  ◌∷◌, ◌++◌, map, Bytes, length, take, drop, take-append-drop, get_elem?, ltb, Bool-cases, and_left,
  and_right, eq_of_some,
}
use intouch2_mqtt.Nom.{
  IResult, ok, error, failure, panic, out_of_fuel, incomplete, Parser, or_else, Nom,
}
use intouch2_mqtt.Object.{Kind, Package, Payload, format_of, NetworkPackageData}
use intouch2_mqtt.Object.Schema.{is_fallback, is_ordered_package, IsCanonical, IsExactPayload}
use intouch2_mqtt.Object.Codec.{compose, parse_inner, parser_content, parse_order, parse}
use intouch2_mqtt.Object.RoundTrip.{parse_package-compose}
use intouch2_mqtt.Object.Rejects.{
  Shape, Has, clash, lead_package, parse_package-clash, rejects, parse_package-rejects,
}

-- The place of a variant in `parse_order`.
abbrev rank : Kind → ℕ
rank Kind.ping = 0
rank Kind.pong = 1
rank Kind.packs = 2
rank Kind.radio_error = 3
rank Kind.water_quality_error = 4
rank Kind.files_request = 5
rank Kind.get_version = 6
rank Kind.version = 7
rank Kind.push_status = 8
rank Kind.set_status = 9
rank Kind.key_press = 10
rank Kind.push_status_ack = 11
rank Kind.request_status = 12
rank Kind.status = 13
rank Kind.get_watercare = 14
rank Kind.watercare_get = 15
rank Kind.set_watercare = 16
rank Kind.watercare_set = 17
rank Kind.request_watercare = 18
rank Kind.modify_watercare = 19
rank Kind.delete_watercare = 20
rank Kind.watercare_deleted = 21
rank Kind.add_watercare = 22
rank Kind.watercare_added = 23
rank Kind.modify_watercare_response = 24
rank Kind.request_reminders = 25
rank Kind.reminders_request = 26
rank Kind.malformed_reminders_request = 27
rank Kind.watercare_request = 28
rank Kind.channel_current = 29
rank Kind.get_channel = 30
rank Kind.files = 31
rank Kind.unknown = 32

-- Every variant in front of place `r` refuses what `p` writes, and `k` stands there.
abbrev reached : ℕ → List Kind → Package → Bool
reached r [] p = false
reached zero (j ∷ ks) p = true
reached (suc r) (j ∷ ks) p = rejects (format_of j) p && reached r ks p

-- Every variant in front of place `r` refuses an input of the shape.
abbrev pub all_clash : ℕ → List Kind → Shape → Bool
all_clash r [] t = false
all_clash zero (j ∷ ks) t = true
all_clash (suc r) (j ∷ ks) t = clash (lead_package (format_of j)) t && all_clash r ks t

rank-reached :
    (k : Kind) → is_fallback k ≡ false → reached (rank k) parse_order (format_of k) ≡ true
rank-reached Kind.malformed_reminders_request h = cc
rank-reached Kind.unknown h = cc
rank-reached _ h = refl

rank-parse_order : (k : Kind) → get_elem? parse_order (rank k) ≡ some k
rank-parse_order Kind.ping = refl
rank-parse_order _ = refl

pub format_of-is_ordered : (k : Kind) → is_ordered_package (format_of k) ≡ true
format_of-is_ordered Kind.ping = refl
format_of-is_ordered _ = refl

pub or_else-error {ℓ} : {A : Type ℓ} (r : IResult A) → or_else r error ≡ r
or_else-error (ok a) = refl
or_else-error error = refl
or_else-error failure = refl
or_else-error panic = refl
or_else-error out_of_fuel = refl
or_else-error (incomplete k) = refl

pub or_else_assoc {ℓ} :
    {A : Type ℓ} (a b c : IResult A) → or_else (or_else a b) c ≡ or_else a (or_else b c)
or_else_assoc (ok a) b c = refl
or_else_assoc error b c = refl
or_else_assoc failure b c = refl
or_else_assoc panic b c = refl
or_else_assoc out_of_fuel b c = refl
or_else_assoc (incomplete k) b c = refl

module _ (n : Nom) where
  -- The first variant in the list whose parser does not give a recoverable error.
  unfoldable pub first_match : List Kind → Parser NetworkPackageData
  first_match [] i = error
  first_match (k ∷ ks) i = or_else (parse_inner n k i) (first_match ks i)

  alt-first_match :
      (ks : List Kind) (i : Bytes) → n.alt (map (parse_inner n) ks) i ≡ first_match ks i
  unfolding first_match
  alt-first_match [] i = n.alt-nil i
  alt-first_match (k ∷ ks) i = simp (n.alt-cons, alt-first_match ks i)

  alt-append :
      (ks : List Kind) (q : Parser NetworkPackageData) (i : Bytes)
      → n.alt (map (parse_inner n) ks ++ q ∷ []) i ≡ or_else (first_match ks i) (q i)
  unfolding first_match
  alt-append [] q i = simp (n.alt-cons, n.alt-nil, or_else-error)
  alt-append (k ∷ ks) q i = simp (n.alt-cons, alt-append ks q i, or_else_assoc)

  first_match-append :
      (ks js : List Kind) (i : Bytes)
      → first_match (ks ++ js) i ≡ or_else (first_match ks i) (first_match js i)
  unfolding first_match
  first_match-append [] js i = refl
  first_match-append (k ∷ ks) js i = simp (first_match-append ks js i, or_else_assoc)

  -- However many levels the macro builds, the parser is the ordered choice over the whole list.
  pub parser_content-first_match :
      (levels : ℕ) (ks : List Kind) (i : Bytes) → parser_content n levels ks i ≡ first_match ks i
  unfolding parser_content
  parser_content-first_match zero ks i = alt-first_match ks i
  parser_content-first_match (suc levels) ks i = elim (Bool-cases (ltb 20 (length ks))) [
    | inr few ↦ rw few (alt-first_match ks i)
    | inl many ↦ rw many (
        alt-append (take 20 ks) (parser_content n levels (drop 20 ks)) i
        ∙ ap (or_else (first_match (take 20 ks) i))
            (parser_content-first_match levels (drop 20 ks) i)
        ∙ sym (first_match-append (take 20 ks) (drop 20 ks) i)
        ∙ ap (λ l. first_match l i) (take-append-drop 20 ks))
  ]

  -- A variant's own parser reads what the variant writes.
  pub parse_inner-compose :
      (k : Kind) (v : Payload (format_of k))
      → IsExactPayload (format_of k) v
      → parse_inner n k (compose (k, v)) ≡ ok ([], (k, v))
  unfolding parse_inner compose
  parse_inner-compose k v exact =
      rw (parse_package-compose n (format_of k) v (format_of-is_ordered k) exact)

  parse_inner-rejects :
      (j k : Kind) (v : Payload (format_of k))
      → rejects (format_of j) (format_of k) ≡ true
      → parse_inner n j (compose (k, v)) ≡ error
  unfolding parse_inner compose
  parse_inner-rejects j k v h = rw (parse_package-rejects n (format_of j) (format_of k) v h)

  first_match-reached :
      (r : ℕ) (ks : List Kind) (k : Kind) (v : Payload (format_of k))
      → reached r ks (format_of k) ≡ true
      → get_elem? ks r ≡ some k
      → IsExactPayload (format_of k) v
      → first_match ks (compose (k, v)) ≡ ok ([], (k, v))
  unfolding first_match
  first_match-reached r [] k v h g exact = cc
  first_match-reached zero (j ∷ ks) k v h g exact =
      subst
        (λ l.
          or_else (parse_inner n l (compose (k, v))) (first_match ks (compose (k, v)))
          ≡ ok ([], (k, v)))
        (sym (eq_of_some g)) (rw (parse_inner-compose k v exact))
  first_match-reached (suc r) (j ∷ ks) k v h g exact =
      rw (parse_inner-rejects j k v (and_left _ _ h))
        (first_match-reached r ks k v (and_right (rejects (format_of j) (format_of k)) _ h) g exact)

  -- The macro's nested alternatives read what the variants' parsers, tried one after the other in
  -- the order of the list, read.
  pub parse-first_match : (i : Bytes) → parse n i ≡ first_match parse_order i
  unfolding parse
  parse-first_match i = parser_content-first_match 1 parse_order i

  -- The bytes of a canonical package are read back whole, with nothing left, as the same variant
  -- with the same values, for every nom that satisfies the laws. Canonical means: not one of the
  -- two fallback variants, arrays of the length of their type, and no reminders listed.
  pub parse-compose : (d : NetworkPackageData) → IsCanonical d → parse n (compose d) ≡ ok ([], d)
  parse-compose (k, v) canonical =
      parse-first_match (compose (k, v))
      ∙ first_match-reached (rank k) parse_order k v (rank-reached k canonical.0)
          (rank-parse_order k) canonical.1

  first_match-at :
      (r : ℕ) (ks : List Kind) (t : Shape) (i : Bytes)
      → all_clash r ks t ≡ true
      → Has t i
      → first_match ks i ≡ first_match (drop r ks) i
  unfolding first_match parse_inner
  first_match-at r [] t i c h = cc
  first_match-at zero (j ∷ ks) t i c h = refl
  first_match-at (suc r) (j ∷ ks) t i c h =
      rw (parse_package-clash n (format_of j) t i (and_left _ _ c) h)
        (first_match-at r ks t i (and_right (clash (lead_package (format_of j)) t) _ c) h)

  -- The variants whose fixed bytes the input excludes are passed over.
  pub parse-at :
      (r : ℕ) (t : Shape) (i : Bytes)
      → all_clash r parse_order t ≡ true
      → Has t i
      → parse n i ≡ first_match (drop r parse_order) i
  parse-at r t i c h = parse-first_match i ∙ first_match-at r parse_order t i c h
