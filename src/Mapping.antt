-- ===== src/Mapping.antt =====
-- The mapping of the spa's memory to MQTT, intouch2-mqtt/src/mapping.rs: its types, and what a
-- client of the spa sees of the memory.
pub mod Watch
pub mod Publisher
pub mod Command
pub mod Generic
pub mod Lifecycle
mod Examples
use intouch2_mqtt.Base.{ℕ, ◌+◌, ◌*◌, Option, none, some, List, [], ◌∷◌, Bytes}
use intouch2_mqtt.Gecko.{Range}

-- The constructors of serde_json's `Value` that the source builds. `SpecialMode` is part of each type
-- that has it, and a boxed slice of a type is a list in the same block.
mutual
  pub data Value : Type 0 where
    null : Value
    number : ℕ → Value
    array_value : Values → Value

  pub data Values : Type 0 where
    no_values : Values
    value_then : Value → Values → Values

mutual
  pub data MappingType : Type 0 where
    -- u8_addr
    u8 : ℕ → MappingType
    -- u16_addr
    u16 : ℕ → MappingType
    -- addr, len
    array : ℕ → ℕ → MappingType
    watercare_mode : MappingType
    multiple : MappingTypes → MappingType

  pub data MappingTypes : Type 0 where
    no_types : MappingTypes
    type_then : MappingType → MappingTypes → MappingTypes

-- The addresses of a range.
abbrev pub range_from : ℕ → ℕ → Range
range_from start len = record { start = start; end = start + len }

-- `MappingType::range`
abbrev pub range : MappingType → Option Range
range (u8 addr) = some (range_from addr 1)
range (u16 addr) = some (range_from addr 2)
range (array addr len) = some (range_from addr len)
range watercare_mode = none
range (multiple children) = none

-- What the receivers of the client hold: the bytes of each range, and the mode.
pub record View : Type 0 where
  pub region : Range → Bytes
  pub watercare : Option ℕ

-- A JSON array of the numbers of bytes.
abbrev pub numbers : Bytes → Values
numbers [] = no_values
numbers (byte ∷ bytes) = value_then (number byte) (numbers bytes)

abbrev pub number_or_null : Option ℕ → Value
number_or_null (some mode) = number mode
number_or_null none = null
