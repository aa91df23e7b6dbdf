-- ===== src/Mapping/Command.antt =====
-- The commands of intouch2-mqtt/src/mapping.rs: the job of `Mapping::add_generic` that listens to a
-- topic. `from_slice` and `to_vec` of serde_json are parameters. Addresses are `u16`, whose sums panic
-- in a build with overflow checks and wrap in one without; `checks` says which build it is.
use intouch2_mqtt.Base.{
  ℕ, zero, suc, ◌+◌, ◌*◌, ◌-◌, ◌/◌, ◌%◌, ◌^◌, ◌≤◌, ◌<◌, ◌≡◌, refl, ap, sym, ◌∙◌, Bool, true, false,
  ◌&&◌, not, Option, none, some, List, [], ◌∷◌, Bytes, beq, beq_eq, ◌==◌, ==_iff, leb, leb→le, ltb,
  if◌then◌else◌, length, arith, eq_of_some, ◌⊎◌, inl, inr,
}
use intouch2_mqtt.Outcome.{Outcome, returns, panics, ◌>>=◌}
use intouch2_mqtt.Object.Codec.{to_be_bytes}
use intouch2_mqtt.Session.Packet.{
  Publish, Packet, connect_packet, connack, publish_packet, puback, pubrec, pubrel,
  subscribe_packet, suback, pingreq, pingresp, other,
}
use intouch2_mqtt.Spa.{SpaCommand, set_status_command, set_watercare_command}
use intouch2_mqtt.Gecko.{Range}
use intouch2_mqtt.Mapping.{Value}
pub mod Safety
pub mod RoundTrip

-- `serde_json::from_slice` at the types that the source reads, and `to_vec`.
pub record Serde : Type 0 where
  pub u8_from_slice : Bytes → Option ℕ
  pub u16_from_slice : Bytes → Option ℕ
  pub bytes_from_slice : Bytes → Option Bytes
  pub to_vec : Value → Bytes

pub data CommandStatusType : Type 0 where
  -- u8_addr
  u8_command : ℕ → CommandStatusType
  -- u16_addr
  u16_command : ℕ → CommandStatusType
  -- addr, len
  array_command : ℕ → ℕ → CommandStatusType

mutual
  pub data CommandMappingType : Type 0 where
    -- config_version, log_version, pack_type, and the data
    set_status : ℕ → ℕ → ℕ → CommandStatusType → CommandMappingType
    set_watercare : CommandMappingType
    multiple_commands : CommandMappingTypes → CommandMappingType

  pub data CommandMappingTypes : Type 0 where
    no_commands : CommandMappingTypes
    command_then : CommandMappingType → CommandMappingTypes → CommandMappingTypes

abbrev pub one_of : Option ℕ → Option Bytes
one_of none = none
one_of (some byte) = some (byte ∷ [])

abbrev pub two_of : Option ℕ → Option Bytes
two_of none = none
two_of (some n) = some (to_be_bytes n)

-- `CommandStatusType::parse`
unfoldable pub parse_command : Serde → CommandStatusType → Bytes → Option Bytes
parse_command serde (u8_command addr) payload = one_of (serde.u8_from_slice payload)
parse_command serde (u16_command addr) payload = two_of (serde.u16_from_slice payload)
parse_command serde (array_command addr len) payload = serde.bytes_from_slice payload

-- A range of `u16`.
abbrev pub wrapped : Bool → ℕ → ℕ → Outcome Range
wrapped checks addr len =
    if checks && leb (2 ^ 16) (addr + len)
    then panics
    else returns record { start = addr; end = (addr + len) % 2 ^ 16 }

-- `CommandStatusType::range`
abbrev pub command_range : Bool → CommandStatusType → Outcome Range
command_range checks (u8_command addr) = wrapped checks addr 1
command_range checks (u16_command addr) = wrapped checks addr 2
command_range checks (array_command addr len) = wrapped checks addr len

-- `u8::from_str`: an optional sign, then decimal digits, with the overflow checked at each.
abbrev pub is_digit : ℕ → Bool
is_digit byte = leb 48 byte && leb byte 57

unfoldable pub digits_from : ℕ → Bytes → Option ℕ
digits_from value [] = some value
digits_from value (byte ∷ bytes) =
    let rest = digits_from (value * 10 + (byte - 48)) bytes in
    if is_digit byte && ltb (value * 10 + (byte - 48)) (2 ^ 8) then rest else none

abbrev pub digits : Bytes → Option ℕ
digits [] = none
digits (byte ∷ bytes) = digits_from 0 (byte ∷ bytes)

abbrev pub parse_u8 : Bytes → Option ℕ
parse_u8 [] = none
parse_u8 (byte ∷ bytes) = if byte == 43 then digits bytes else digits (byte ∷ bytes)

-- The payload of a set status, if it has the size of its range.
abbrev pub sized_status : ℕ → ℕ → ℕ → Range → Option Bytes → Option SpaCommand
sized_status config_version log_version pack_type range none = none
sized_status config_version log_version pack_type range (some bytes) =
    if range.end - range.start == length bytes
    then some (set_status_command config_version log_version pack_type range.start bytes)
    else none

abbrev pub watercare_or : Option ℕ → Option SpaCommand
watercare_or none = none
watercare_or (some mode) = some (set_watercare_command mode)

-- A published payload on the command's topic; the range is computed before the payload is parsed. A
-- list of commands is not handled.
unfoldable pub command_of : Bool → Serde → CommandMappingType → Bytes → Outcome (Option SpaCommand)
command_of checks serde set_watercare payload = returns (watercare_or (parse_u8 payload))
command_of checks serde (set_status config_version log_version pack_type type) payload =
    command_range checks type >>= λ range.
    returns
      (sized_status config_version log_version pack_type range (parse_command serde type payload))
command_of checks serde (multiple_commands _) payload = returns none

-- One packet that the job receives: the command that it sends to the spa, if any.
unfoldable pub on_broadcast :
    Bool → Serde → CommandMappingType → Bytes → Packet → Outcome (Option SpaCommand)
on_broadcast checks serde command topic (publish_packet p) =
    if not p.dup && beq p.topic_name topic
    then command_of checks serde command p.payload
    else returns none
on_broadcast checks serde command topic _ = returns none
