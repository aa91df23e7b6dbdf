-- ===== src/Object/Defects.antt =====
-- Reading a package cut short in an array, an invalid discriminant, and a list of reminders.
use intouch2_mqtt.Base.{
  ℕ, ◌<◌, ◌≡◌, ◌≢◌, refl, ap, sym, ◌∙◌, ◌⊎◌, inl, inr, Bool, true, false, none, some, List, [], ◌∷◌,
  ◌++◌, append-nil, arith, Bytes, codes, length, Bool-cases,
}
use intouch2_mqtt.Nom.{ok, error, failure, panic, Nom}
use intouch2_mqtt.Object.{
  Kind, ReminderIndex, reminder_repr, reminder_from_repr, ReminderInfo, watercare_from_repr,
}
use intouch2_mqtt.Object.Codec.{
  compose, compose_list, compose_reminder, parse, parse_inner, parse_array, parse_change,
  parse_list, parse_loop, parse_reminder, parse_watercare_type,
}
use intouch2_mqtt.Object.RoundTrip.{tag-append, compose_list-bytes}
use intouch2_mqtt.Object.Rejects.{fixed, Has, Has-fixed}
use intouch2_mqtt.Object.Dispatch.{first_match, parse-at, parse_inner-compose}

short_array : (short : Bytes) → length short < 2 → parse_array 2 short ≡ panic
unfolding parse_array
short_array short h = ground arith

only_empty : (v : Bool) (rest : Bytes) → (v ≡ false) ⊎ (rest ≡ []) → v ≡ true → rest ≡ []
only_empty v rest h e = ground arith

module _ (n : Nom) where
  push_status_short :
      (len hi lo : ℕ) (short : Bytes)
      → length short < 2
      → parse_inner n Kind.push_status (codes "STATP" ++ len ∷ hi ∷ lo ∷ short) ≡ panic
  unfolding parse_inner parse_list parse_loop parse_change
  push_status_short len hi lo short h =
      simp (tag-append n (codes "STATP"), n.u8-cons, n.be_u16-cons, short_array short h)

  -- A pushed status whose first change has fewer than two bytes of value makes the reader panic,
  -- whatever its length field says.
  pub parse-truncated_push_status :
      (len hi lo : ℕ) (short : Bytes)
      → length short < 2
      → parse n (codes "STATP" ++ len ∷ hi ∷ lo ∷ short) ≡ panic
  unfolding first_match
  parse-truncated_push_status len hi lo short h =
      parse-at n 8 (fixed (codes "STATP") []) _ refl
        (Has-fixed (codes "STATP") [] (len ∷ hi ∷ lo ∷ short) tt)
      ∙ rw (push_status_short len hi lo short h)

  watercare_deleted_invalid :
      (mode t : ℕ) (rest : Bytes)
      → watercare_from_repr t ≡ none
      → parse_inner n Kind.watercare_deleted (codes "WCDEL" ++ mode ∷ t ∷ rest) ≡ failure
  unfolding parse_inner parse_watercare_type
  watercare_deleted_invalid mode t rest h = simp (tag-append n (codes "WCDEL"), n.u8-cons) (rw h)

  -- A deleted watercare whose type is neither 1 nor 2 ends the reading in a failure, whatever
  -- follows: it does not become the variant for what is unknown.
  pub parse-invalid_watercare_type :
      (mode t : ℕ) (rest : Bytes)
      → t ≢ 1
      → t ≢ 2
      → parse n (codes "WCDEL" ++ mode ∷ t ∷ rest) ≡ failure
  unfolding first_match
  parse-invalid_watercare_type mode t rest h k =
      parse-at n 21 (fixed (codes "WCDEL") []) _ refl
        (Has-fixed (codes "WCDEL") [] (mode ∷ t ∷ rest) tt)
      ∙ rw (watercare_deleted_invalid mode t rest (ground arith))

  reminder_repr_known : (i : ReminderIndex) → reminder_from_repr (reminder_repr i) ≡ some i
  reminder_repr_known ReminderIndex.invalid = refl
  reminder_repr_known _ = refl

  -- The composer writes a reminder without the byte 1 that the parser expects in front of `valid`.
  reminder_unread :
      (r : ReminderInfo) (rest : Bytes)
      → (r.valid ≡ false) ⊎ (rest ≡ [])
      → parse_reminder n (compose_reminder r ++ rest) ≡ error
  unfolding parse_reminder compose_reminder
  reminder_unread r rest h =
      simp (n.u8-cons, reminder_repr_known, n.be_u16-cons, n.tag_lem)
        (elim (Bool-cases r.valid) [
          | inr e ↦ rw e
          | inl e ↦ rw (e, only_empty r.valid rest h e) (rw n.u8-nil)
        ])

  nothing_left :
      (r : ReminderInfo) (rs : List ReminderInfo)
      → (r.valid ≡ false) ⊎ (rs ≡ [])
      → (r.valid ≡ false) ⊎ (compose_list compose_reminder rs ≡ [])
  unfolding compose_list
  nothing_left r rs (inl e) = inl e
  nothing_left r rs (inr e) = inr (rw e)

  Has-reminders :
      (rs : List ReminderInfo)
      → Has (fixed (codes "RMREQ") []) (compose (Kind.reminders_request, (rs, tt)))
  unfolding compose
  Has-reminders rs = Has-fixed (codes "RMREQ") [] (compose_list compose_reminder rs ++ []) tt

  compose-malformed :
      (rs : List ReminderInfo)
      → compose (Kind.reminders_request, (rs, tt))
        ≡ compose (Kind.malformed_reminders_request, (compose_list compose_reminder rs, tt))
  unfolding compose
  compose-malformed rs =
      ap (λ xs. codes "RMREQ" ++ (xs ++ []))
        (sym (compose_list-bytes n (compose_list compose_reminder rs)))

  reminders_unread :
      (r : ReminderInfo) (rs : List ReminderInfo)
      → (r.valid ≡ false) ⊎ (rs ≡ [])
      → parse_inner n Kind.reminders_request (compose (Kind.reminders_request, (r ∷ rs, tt)))
        ≡ error
  unfolding parse_inner parse_list parse_loop compose compose_list
  reminders_unread r rs h =
      simp (tag-append n (codes "RMREQ"), append-nil)
        (rw (reminder_unread r (compose_list compose_reminder rs) (nothing_left r rs h)))

  -- The bytes of a nonempty list of reminders whose first one is not valid, or is the only one,
  -- are not read back as reminders but as the fallback variant with the bytes of the list.
  pub parse-reminders :
      (r : ReminderInfo) (rs : List ReminderInfo)
      → (r.valid ≡ false) ⊎ (rs ≡ [])
      → parse n (compose (Kind.reminders_request, (r ∷ rs, tt)))
        ≡ ok ([], (Kind.malformed_reminders_request, (compose_list compose_reminder (r ∷ rs), tt)))
  unfolding first_match
  parse-reminders r rs h =
      parse-at n 26 (fixed (codes "RMREQ") []) (compose (Kind.reminders_request, (r ∷ rs, tt))) refl
        (Has-reminders (r ∷ rs))
      ∙ rw (reminders_unread r rs h) (
          rw (compose-malformed (r ∷ rs)) (
            rw (
              parse_inner-compose n Kind.malformed_reminders_request
                (compose_list compose_reminder (r ∷ rs), tt) (tt, tt))))
