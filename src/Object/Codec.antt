-- ===== src/Object/Codec.antt =====
-- How packages are read and written: the code that `gen_packages!` generates
-- (intouch2/src/object_macro.rs), the implementations of `DatasContent`
-- (intouch2/src/object_traits.rs, intouch2/src/parser.rs), and the order of the variants.
use intouch2_mqtt.Base.{
  ℕ, zero, suc, ◌/◌, ◌%◌, Bool, true, false, Option, none, some, List, [], ◌∷◌, ◌++◌, map, Bytes,
  if◌then◌else◌, ◌==◌, ltb, leb, beq, length, take, drop,
}
use intouch2_mqtt.Nom.{IResult, ok, error, failure, panic, out_of_fuel, ◌>>=◌, Parser, Nom}
use intouch2_mqtt.Object.{
  reminder_repr, reminder_from_repr, ReminderInfo, WatercareType, watercare_repr,
  watercare_from_repr, StatusChange, MemberType, u8, u16, watercare_type, slice, status_changes,
  reminders, array, ActualType, Member, tag, member, Fields, Package, simple, tailing, struct,
  Payload, Kind, format_of, NetworkPackageData,
}

-- `u16::to_be_bytes`
abbrev pub to_be_bytes : ℕ → Bytes
to_be_bytes n = (n / 256) ∷ (n % 256) ∷ []

-- `ok_or_else(Failure)` on the result of `from_repr`.
abbrev pub or_failure {ℓ} : {A : Type ℓ} → Option A → IResult A
or_failure none = failure
or_failure (some a) = ok a

-- `Cow<[u8; LENGTH]>::parse`: `split_at` panics on a short input, so that the check of the length
-- behind it is never reached.
unfoldable pub parse_array : ℕ → Parser Bytes
parse_array n input = if leb n (length input) then ok (drop n input, take n input) else panic

-- `Cow<[T]>::parse`: elements until the input is empty. Every element takes a byte or more, so
-- the input's length is enough fuel.
unfoldable pub parse_loop : {A : Type 0} → Parser A → ℕ → Parser (List A)
parse_loop p fuel [] = ok ([], [])
parse_loop p zero (x ∷ input) = out_of_fuel
parse_loop p (suc fuel) (x ∷ input) = do
  (new_input, new_parse) ← p (x ∷ input)
  (rest, result) ← parse_loop p fuel new_input
  ok (rest, new_parse ∷ result)

unfoldable pub parse_list : {A : Type 0} → Parser A → Parser (List A)
unfolding parse_loop
parse_list p input = parse_loop p (length input) input

unfoldable pub parse_valid : Bytes → ℕ → IResult (Bytes × Bool)
parse_valid input valid =
    if valid == 0 then ok (input, false) else if valid == 1 then ok (input, true) else failure

unfoldable pub compose_reminder : ReminderInfo → Bytes
compose_reminder r = reminder_repr r.index ∷ (to_be_bytes r.info ++ (if r.valid then 1 else 0) ∷ [])

unfoldable pub compose_change : StatusChange → Bytes
compose_change c = to_be_bytes c.change ++ c.bytes

unfoldable pub compose_list : {A : Type 0} → (A → Bytes) → List A → Bytes
compose_list f [] = []
compose_list f (x ∷ xs) = f x ++ compose_list f xs

unfoldable pub compose_member : (t : MemberType) → ActualType t → Bytes
unfolding compose_reminder compose_change compose_list
compose_member u8 n = n ∷ []
compose_member u16 n = to_be_bytes n
compose_member watercare_type w = watercare_repr w ∷ []
compose_member slice bytes = compose_list (λ byte. byte ∷ []) bytes
compose_member status_changes changes = compose_list compose_change changes
compose_member reminders infos = compose_list compose_reminder infos
compose_member (array n) bytes = bytes

unfoldable pub compose_members : (ms : List Member) → Fields ms → Bytes
unfolding compose_member
compose_members [] v = []
compose_members (tag t ∷ ms) v = t ++ compose_members ms v
compose_members (member name t ∷ ms) v = compose_member t v.0 ++ compose_members ms v.1

unfoldable pub compose_package : (p : Package) → Payload p → Bytes
unfolding compose_members
compose_package (simple verb) v = verb
compose_package (tailing verb) tail = verb ++ tail
compose_package (struct ms) v = compose_members ms v

-- `NetworkPackageData::compose`
unfoldable pub compose : NetworkPackageData → Bytes
unfolding compose_package
compose d = compose_package (format_of d.0) d.1

-- The enum's variants in the order of its parser: those without a value first.
abbrev pub parse_order : List Kind
parse_order =
    Kind.ping ∷ Kind.pong ∷ Kind.packs ∷ Kind.radio_error ∷ Kind.water_quality_error
    ∷ Kind.files_request ∷ Kind.get_version ∷ Kind.version ∷ Kind.push_status ∷ Kind.set_status
    ∷ Kind.key_press ∷ Kind.push_status_ack ∷ Kind.request_status ∷ Kind.status ∷ Kind.get_watercare
    ∷ Kind.watercare_get ∷ Kind.set_watercare ∷ Kind.watercare_set ∷ Kind.request_watercare
    ∷ Kind.modify_watercare ∷ Kind.delete_watercare ∷ Kind.watercare_deleted ∷ Kind.add_watercare
    ∷ Kind.watercare_added ∷ Kind.modify_watercare_response ∷ Kind.request_reminders
    ∷ Kind.reminders_request ∷ Kind.malformed_reminders_request ∷ Kind.watercare_request
    ∷ Kind.channel_current ∷ Kind.get_channel ∷ Kind.files ∷ Kind.unknown ∷ []

module _ (n : Nom) where
  unfoldable pub parse_change : Parser StatusChange
  unfolding parse_array
  parse_change input = do
    (input₁, change) ← n.be_u16 input
    (rest, bytes) ← parse_array 2 input₁
    ok (rest, record { change = change; bytes = bytes })

  unfoldable pub parse_watercare_type : Parser WatercareType
  parse_watercare_type input = do
    (new_input, parsed) ← n.u8 input
    watercare ← or_failure (watercare_from_repr parsed)
    ok (new_input, watercare)

  unfoldable pub parse_reminder : Parser ReminderInfo
  unfolding parse_valid
  parse_reminder input = do
    (new_input, index) ← n.u8 input
    index' ← or_failure (reminder_from_repr index)
    (input₁, info) ← n.be_u16 new_input
    (before_valid, _) ← n.tag (1 ∷ []) input₁
    (input₂, valid) ← n.u8 before_valid
    (rest, valid') ← parse_valid input₂ valid
    ok (rest, record { index = index'; info = info; valid = valid' })

  unfoldable pub parse_member : (t : MemberType) → Parser (ActualType t)
  unfolding parse_change parse_watercare_type parse_reminder parse_list parse_array
  parse_member u8 = n.u8
  parse_member u16 = n.be_u16
  parse_member watercare_type = parse_watercare_type
  parse_member slice = parse_list n.u8
  parse_member status_changes = parse_list parse_change
  parse_member reminders = parse_list parse_reminder
  parse_member (array k) = parse_array k

  unfoldable pub parse_members : (ms : List Member) → Parser (Fields ms)
  unfolding parse_member
  parse_members [] input = ok (input, tt)
  parse_members (tag t ∷ ms) input = do (rest, _) ← n.tag t input; parse_members ms rest
  parse_members (member name t ∷ ms) input = do
    (input₁, v) ← parse_member t input
    (rest, vs) ← parse_members ms input₁
    ok (rest, (v, vs))

  unfoldable pub parse_package : (p : Package) → Parser (Payload p)
  unfolding parse_members
  parse_package (simple verb) input = if beq input verb then ok ([], tt) else error
  parse_package (tailing verb) input = do (tail, _) ← n.tag verb input; ok ([], tail)
  parse_package (struct ms) input = parse_members ms input

  unfoldable pub parse_inner : Kind → Parser NetworkPackageData
  unfolding parse_package
  parse_inner k input = do (rest, v) ← parse_package (format_of k) input; ok (rest, (k, v))

  -- `PARSER_CONTENT`: twenty alternatives at most, and the rest as one more. The first argument
  -- bounds the levels.
  unfoldable pub parser_content : ℕ → List Kind → Parser NetworkPackageData
  unfolding parse_inner
  parser_content zero ks = n.alt (map parse_inner ks)
  parser_content (suc levels) ks =
      if ltb 20 (length ks)
      then n.alt (map parse_inner (take 20 ks) ++ parser_content levels (drop 20 ks) ∷ [])
      else n.alt (map parse_inner ks)

  -- `NetworkPackageData::parse`
  unfoldable pub parse : Parser NetworkPackageData
  unfolding parser_content
  parse = parser_content 1 parse_order
