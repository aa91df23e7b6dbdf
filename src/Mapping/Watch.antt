-- ===== src/Mapping/Watch.antt =====
-- `WatchMap` and `MappingType::subscribe` of intouch2-mqtt/src/mapping.rs, and the loop of
-- `Mapping::add_generic` that publishes a state.
use intouch2_mqtt.Base.{
  ℕ, leb, ◌&&◌, if◌then◌else◌, ◌+◌, ◌*◌, Option, none, some, List, [], ◌∷◌, Bytes,
}
use intouch2_mqtt.Gecko.{Range}
use intouch2_mqtt.Outcome.{Outcome, returns, panics, ◌>>=◌}
use intouch2_mqtt.Mapping.{
  Value, number, array_value, Values, no_values, value_then, MappingType, u8, u16, array,
  watercare_mode, multiple, MappingTypes, no_types, type_then, range_from, View, numbers,
  number_or_null,
}

-- A map over a receiver of the client, or over the signals of its children, with its cached value.
mutual
  pub data WatchMap : Type 0 where
    direct : MappingType → WatchMap
    combined : Option Value → WatchMaps → WatchMap

  pub data WatchMaps : Type 0 where
    no_maps : WatchMaps
    map_then : WatchMap → WatchMaps → WatchMaps

-- `try_into` a `&[u8; 1]`, with its `expect`.
abbrev pub one_byte : Bytes → Outcome Value
one_byte (byte ∷ []) = returns (number byte)
one_byte _ = panics

-- `try_into` a `&[u8; 2]`, with its `expect`, and `u16::from_be_bytes`.
abbrev pub two_bytes : Bytes → Outcome Value
two_bytes (high ∷ low ∷ []) = returns (number (high * 256 + low))
two_bytes _ = panics

-- The closures that `subscribe` gives to maps over a receiver.
abbrev pub read_value : View → MappingType → Outcome Value
read_value view (u8 addr) = one_byte (view.region (range_from addr 1))
read_value view (u16 addr) = two_bytes (view.region (range_from addr 2))
read_value view (array addr len) =
    returns (array_value (numbers (view.region (range_from addr len))))
read_value view watercare_mode = returns (number_or_null view.watercare)
read_value view (multiple children) = panics

-- `SpaConnection::subscribe`, for a memory of a size: an index out of range panics.
abbrev pub watch_range : ℕ → Range → WatchMap → Outcome WatchMap
watch_range size range map =
    if leb range.start range.end && leb range.end size then returns map else panics

-- `subscribe`. A channel for no children panics. The second subscription of the children, which only
-- signals, fails where the first does.
unfoldable mutual
  pub subscribe : ℕ → MappingType → Outcome WatchMap
  subscribe size (multiple no_types) = panics
  subscribe size (multiple (type_then child children)) = subscribe size child >>= λ first.
      subscribe_children size children >>= λ rest. returns (combined none (map_then first rest))
  subscribe size (u8 addr) = watch_range size (range_from addr 1) (direct (u8 addr))
  subscribe size (u16 addr) = watch_range size (range_from addr 2) (direct (u16 addr))
  subscribe size (array addr len) = watch_range size (range_from addr len) (direct (array addr len))
  subscribe size watercare_mode = returns (direct watercare_mode)

  pub subscribe_children : ℕ → MappingTypes → Outcome WatchMaps
  subscribe_children size no_types = returns no_maps
  subscribe_children size (type_then child children) = subscribe size child >>= λ first.
      subscribe_children size children >>= λ rest. returns (map_then first rest)

-- `borrow_and_update`
unfoldable mutual
  pub borrow_and_update : View → WatchMap → Outcome (Value × WatchMap)
  borrow_and_update view (direct type) =
      read_value view type >>= λ value. returns (value, direct type)
  borrow_and_update view (combined (some value) maps) = returns (value, combined (some value) maps)
  borrow_and_update view (combined none maps) = borrow_all view maps >>= λ (values, maps').
      returns (array_value values, combined (some (array_value values)) maps')

  pub borrow_all : View → WatchMaps → Outcome (Values × WatchMaps)
  borrow_all view no_maps = returns (no_values, no_maps)
  borrow_all view (map_then first rest) = borrow_and_update view first >>= λ (value, first').
      borrow_all view rest >>= λ (values, rest').
      returns (value_then value values, map_then first' rest')

-- `changed`, where it returns.
abbrev pub changed : WatchMap → WatchMap
changed (direct type) = direct type
changed (combined cached maps) = combined none maps

-- The values that the loop publishes: of what it sees first, then after each change.
unfoldable pub published : View → List View → WatchMap → Outcome (List Value)
published view [] map = borrow_and_update view map >>= λ (value, map'). returns (value ∷ [])
published view (next ∷ views) map = borrow_and_update view map >>= λ (value, map').
    published next views (changed map') >>= λ values. returns (value ∷ values)
