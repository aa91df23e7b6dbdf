-- ===== src/Object.antt =====
-- The packages of the spa's protocol: intouch2/src/object.rs, intouch2/src/object_traits.rs and the
-- macro `gen_packages!` of intouch2/src/object_macro.rs. The macro is modelled as it is written: its
-- argument is the table `format_of`, and the code that it generates is a function over such tables.
pub mod Codec
pub mod Schema
pub mod RoundTrip
pub mod Rejects
pub mod Dispatch
pub mod Totality
pub mod Defects
mod Examples
use intouch2_mqtt.Base.{
  ℕ, String, Bool, true, false, Option, none, some, List, [], ◌∷◌, ◌++◌, Bytes, codes,
  if◌then◌else◌, ◌==◌,
}

pub data ReminderIndex : Type 0 where
  invalid rinse_filter clean_filter change_water check_spa change_ozonator : ReminderIndex
  change_vision_cartridge : ReminderIndex

-- `self.index as u8`
abbrev pub reminder_repr : ReminderIndex → ℕ
reminder_repr invalid = 0
reminder_repr rinse_filter = 1
reminder_repr clean_filter = 2
reminder_repr change_water = 3
reminder_repr check_spa = 4
reminder_repr change_ozonator = 5
reminder_repr change_vision_cartridge = 6

-- `ReminderIndex::from_repr`, which strum derives from the discriminants.
abbrev pub reminder_from_repr : ℕ → Option ReminderIndex
reminder_from_repr n =
    if n == 0
    then some invalid
    else if n == 1
    then some rinse_filter
    else if n == 2
    then some clean_filter
    else if n == 3
    then some change_water
    else if n == 4
    then some check_spa
    else if n == 5
    then some change_ozonator
    else if n == 6
    then some change_vision_cartridge
    else none

pub record ReminderInfo : Type 0 where
  pub index : ReminderIndex
  pub info : ℕ
  pub valid : Bool

pub data WatercareType : Type 0 where
  economy filter_cycle : WatercareType

abbrev pub watercare_repr : WatercareType → ℕ
watercare_repr economy = 1
watercare_repr filter_cycle = 2

abbrev pub watercare_from_repr : ℕ → Option WatercareType
watercare_from_repr n = if n == 1 then some economy else if n == 2 then some filter_cycle else none

pub record StatusChange : Type 0 where
  pub change : ℕ
  pub bytes : Bytes

-- The types that a member of a package may have; `array n` is `&[u8; n]`, and `slice` is `&[u8]`, for
-- which the value is a `Cow<[u8]>`.
pub data MemberType : Type 0 where
  u8 u16 watercare_type slice status_changes reminders : MemberType
  array : ℕ → MemberType

-- `<T as ActualType>::Type`
abbrev pub ActualType : MemberType → Type 0
ActualType u8 = ℕ
ActualType u16 = ℕ
ActualType watercare_type = WatercareType
ActualType slice = Bytes
ActualType status_changes = List StatusChange
ActualType reminders = List ReminderInfo
ActualType (array n) = Bytes

-- One line of a struct in the macro's argument: a tag, or a named member.
pub data Member : Type 0 where
  tag : Bytes → Member
  member : String → MemberType → Member

-- The struct that the macro builds from its lines.
abbrev pub Fields : List Member → Type 0
Fields [] = Unit {0}
Fields (tag _ ∷ ms) = Fields ms
Fields (member _ t ∷ ms) = ActualType t × Fields ms

-- `dispatch::Simple`, `dispatch::Tailing`, and a struct.
pub data Package : Type 0 where
  simple tailing : Bytes → Package
  struct : List Member → Package

abbrev pub Payload : Package → Type 0
Payload (simple verb) = Unit {0}
Payload (tailing verb) = Bytes
Payload (struct ms) = Fields ms

-- The variants of `NetworkPackageData`.
pub data Kind : Type 0 where
  ping pong get_version packs radio_error water_quality_error version push_status : Kind
  set_status key_press push_status_ack request_status status get_watercare : Kind
  watercare_get set_watercare watercare_set request_watercare modify_watercare : Kind
  delete_watercare watercare_deleted add_watercare watercare_added : Kind
  modify_watercare_response request_reminders reminders_request : Kind
  malformed_reminders_request watercare_request channel_current get_channel : Kind
  files_request files unknown : Kind

-- The argument of `gen_packages!`.
abbrev pub format_of : Kind → Package
format_of ping = simple (codes "APING")
format_of pong = simple (codes "APING" ++ 0 ∷ [])
format_of get_version = struct (tag (codes "AVERS") ∷ member "seq" u8 ∷ [])
format_of packs = simple (codes "PACKS")
format_of radio_error = simple (codes "RFERR")
format_of water_quality_error = simple (codes "WCERR")
format_of version = struct (
    tag (codes "SVERS")
    ∷ member "en_build" u16
    ∷ member "en_major" u8
    ∷ member "en_minor" u8
    ∷ member "co_build" u16
    ∷ member "co_major" u8
    ∷ member "co_minor" u8
    ∷ [])
format_of push_status =
    struct (tag (codes "STATP") ∷ member "length" u8 ∷ member "changes" status_changes ∷ [])
format_of set_status = struct (
    tag (codes "SPACK")
    ∷ member "seq" u8
    ∷ member "pack_type" u8
    ∷ member "len" u8
    ∷ tag (0x46 ∷ [])
    ∷ member "config_version" u8
    ∷ member "log_version" u8
    ∷ member "pos" u16
    ∷ member "data" slice
    ∷ [])
format_of key_press = struct (
    tag (codes "SPACK")
    ∷ member "seq" u8
    ∷ member "pack_type" u8
    ∷ tag (0x02 ∷ 0x39 ∷ [])
    ∷ member "key" u8
    ∷ [])
format_of push_status_ack = struct (tag (codes "STATQ") ∷ member "seq" u8 ∷ [])
format_of request_status =
    struct (tag (codes "STATU") ∷ member "seq" u8 ∷ member "start" u16 ∷ member "length" u16 ∷ [])
format_of status = struct (
    tag (codes "STATV")
    ∷ member "seq" u8
    ∷ member "next" u8
    ∷ member "length" u8
    ∷ member "data" slice
    ∷ [])
format_of get_watercare = struct (tag (codes "GETWC") ∷ member "seq" u8 ∷ [])
format_of watercare_get = struct (tag (codes "WCGET") ∷ member "mode" u8 ∷ [])
format_of set_watercare = struct (tag (codes "SETWC") ∷ member "seq" u8 ∷ member "mode" u8 ∷ [])
format_of watercare_set = struct (tag (codes "WCSET") ∷ member "mode" u8 ∷ [])
format_of request_watercare = struct (tag (codes "REQWC") ∷ member "remainder" u8 ∷ [])
format_of modify_watercare = struct (
    tag (codes "MDFWC")
    ∷ member "seq" u8
    ∷ member "mode" u8
    ∷ member "type" watercare_type
    ∷ member "rule_index" u8
    ∷ member "unknown" (array 2)
    ∷ member "start_hour" u8
    ∷ member "start_minute" u8
    ∷ member "end_hour" u8
    ∷ member "end_minutes" u8
    ∷ [])
format_of delete_watercare = struct (
    tag (codes "DELWC")
    ∷ member "seq" u8
    ∷ member "mode" u8
    ∷ member "type" watercare_type
    ∷ member "index" u8
    ∷ [])
format_of watercare_deleted =
    struct (
      tag (codes "WCDEL")
      ∷ member "mode" u8
      ∷ member "type" watercare_type
      ∷ member "index" u8
      ∷ [])
format_of add_watercare = struct (
    tag (codes "ADDWC")
    ∷ member "seq" u8
    ∷ member "mode" u8
    ∷ member "type" watercare_type
    ∷ member "index" u8
    ∷ member "unknown" (array 2)
    ∷ member "start_hour" u8
    ∷ member "start_minute" u8
    ∷ member "end_hour" u8
    ∷ member "end_minutes" u8
    ∷ [])
format_of watercare_added = struct (
    tag (codes "WCADD")
    ∷ member "mode" u8
    ∷ member "type" watercare_type
    ∷ member "unknown" u8
    ∷ [])
format_of modify_watercare_response = struct (tag (codes "WCMDF") ∷ member "data" slice ∷ [])
format_of request_reminders = struct (tag (codes "REQRM") ∷ member "seq" u8 ∷ [])
format_of reminders_request = struct (tag (codes "RMREQ") ∷ member "reminders" reminders ∷ [])
format_of malformed_reminders_request = struct (tag (codes "RMREQ") ∷ member "reminders" slice ∷ [])
format_of watercare_request = tailing (codes "WCREQ")
format_of channel_current =
    struct (tag (codes "CHCUR") ∷ member "channel" u8 ∷ member "signal_strength" u8 ∷ [])
format_of get_channel = struct (tag (codes "CURCH") ∷ member "seq" u8 ∷ [])
format_of files_request = simple (codes "SFILE?")
format_of files = tailing (codes "FILES")
format_of unknown = tailing []

-- The enum that the macro builds: a variant with the value that it carries.
abbrev pub NetworkPackageData : Type 0
NetworkPackageData = (kind : Kind) × Payload (format_of kind)
