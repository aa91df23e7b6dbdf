-- ===== src/Mapping/Examples.antt =====
-- Mappings of a small memory, and a JSON with numbers of two bytes.
use native.Mathlib.Decide.{ℕ_discrete}
use intouch2_mqtt.Base.{
  true, List, true, get_elem?, ℕ, zero, suc, ◌+◌, ◌*◌, ◌-◌, ◌/◌, ◌%◌, ◌<◌, ◌^◌, ◌≡◌, refl, ap,
  Option, none, some, arith, [], ◌∷◌, map, Bytes, codes, All, false, replicate, length-replicate,
}
use intouch2_mqtt.Outcome.{returns}
use intouch2_mqtt.Session.Packet.{Publish, publish_packet, at_most_once}
use intouch2_mqtt.Spa.{set_status_command}
use intouch2_mqtt.Gecko.{Range}
use intouch2_mqtt.Mapping.{
  Value, null, number, array_value, Values, no_values, value_then, MappingType, u8, u16,
  watercare_mode, multiple, no_types, type_then, View, numbers,
}
use intouch2_mqtt.Mapping.Watch.{
  WatchMap, subscribe, published, direct, combined, map_then, no_maps,
}
use intouch2_mqtt.Mapping.Publisher.{IsSized, value_of, shown, published_lem}
use intouch2_mqtt.Mapping.Command.{
  Serde, u8_command, u16_command, set_status, on_broadcast, parse_command, command_of,
}
use intouch2_mqtt.Mapping.Command.Safety.{IsAllowed, on_broadcast-IsAllowed}
use intouch2_mqtt.Mapping.Command.RoundTrip.{IsFaithful, on_broadcast-state}
use intouch2_mqtt.Session.Topic.{TopicGenerator, topic}
use intouch2_mqtt.Session.Topic.Injective.{IsSegment, segment}
use intouch2_mqtt.Mapping.Generic.{
  GenericMapping, state_type, command_type, value_type, digits_onto, configure, add_generic,
}
use intouch2_mqtt.Mapping.Generic.Topics.{topics_of, add_generic-injective}
use intouch2_mqtt.Mapping.Lifecycle.{
  Mapping, new_mapping, add_state, StartEvent, first_sent, job_ended, ticked, started, IsReleased,
  start_from, start, start-sent,
}

-- A memory in which every byte is the same.
abbrev filled : ℕ → View
filled byte = record { region = λ r. replicate (r.end - r.start) byte; watercare = some 2 }

filled-IsSized : (byte : ℕ) → IsSized (filled byte)
filled-IsSized byte r = length-replicate (r.end - r.start) byte

-- A list with a byte, and a list of the mode and a number in it.
abbrev nested : MappingType
nested = multiple (
    type_then (u8 3)
      (type_then (multiple (type_then watercare_mode (type_then (u16 8) no_types))) no_types))

abbrev nested_maps : WatchMap
nested_maps = combined none (
    map_then (direct (u8 3)) (
      map_then
        (combined none (map_then (direct watercare_mode) (map_then (direct (u16 8)) no_maps)))
        no_maps))

nested_subscribed : subscribe 20 nested ≡ returns nested_maps
unfolding subscribe
nested_subscribed = refl

published_lem_example :
    published (filled 1) (filled 2 ∷ filled 3 ∷ []) nested_maps
    ≡ returns (
        value_of (filled 1) nested
        ∷ map (λ now. shown (filled 1) now nested) (filled 2 ∷ filled 3 ∷ []))
published_lem_example =
    published_lem 20 (filled 1) (filled 2 ∷ filled 3 ∷ []) nested nested_maps nested_subscribed
      (filled-IsSized 1) (filled-IsSized 2, (filled-IsSized 3, tt))

-- A number is its two bytes, and an array its bytes.
abbrev bytes_of : Values → Bytes
bytes_of no_values = []
bytes_of (value_then (number n) values) = n ∷ bytes_of values
bytes_of (value_then _ values) = bytes_of values

abbrev write_value : Value → Bytes
write_value (number n) = (n / 256) ∷ (n % 256) ∷ []
write_value (array_value values) = bytes_of values
write_value null = []

abbrev read_number : Bytes → Option ℕ
read_number (high ∷ low ∷ []) = some (high * 256 + low)
read_number _ = none

abbrev small_serde : Serde
small_serde = record {
  u8_from_slice = read_number;
  u16_from_slice = read_number;
  bytes_from_slice = some;
  to_vec = write_value;
}

bytes_of-numbers : (bytes : Bytes) → bytes_of (numbers bytes) ≡ bytes
bytes_of-numbers [] = refl
bytes_of-numbers (byte ∷ bytes) = ap (◌∷◌ byte) (bytes_of-numbers bytes)

small-IsFaithful : IsFaithful small_serde
small-IsFaithful = record {
  of_u8 = λ n h. ap some (omega arith);
  of_u16 = λ n h. ap some (omega arith);
  of_bytes = λ bytes h. ap some (bytes_of-numbers bytes);
}

filled-IsBytes : (r : Range) → All (λ b. b < 2 ^ 8) (replicate (r.end - r.start) 5)
filled-IsBytes r = all (r.end - r.start)
  where
    all : (n : ℕ) → All (λ b. b < 2 ^ 8) (replicate n 5)
    all zero = tt
    all (suc n) = (omega arith, all n)

-- The published number at an address, sent back.
abbrev sent_back : Publish
sent_back = record {
  dup = false;
  qospid = at_most_once;
  retain = false;
  topic_name = codes "spa/set";
  payload = 5 ∷ 5 ∷ [];
}

sent_back_is : sent_back.payload ≡ write_value (value_of (filled 5) (u16 8))
unfolding value_of
sent_back_is = refl

on_broadcast-state_example :
    on_broadcast true small_serde
      (set_status 1 2 3 (u16_command 8))
      (codes "spa/set")
      (publish_packet sent_back)
    ≡ returns (some (set_status_command 1 2 3 8 (5 ∷ 5 ∷ [])))
on_broadcast-state_example =
    on_broadcast-state true small_serde (filled 5) 1 2 3 (u16_command 8) sent_back small-IsFaithful
      (filled-IsSized 5) filled-IsBytes (omega arith) refl sent_back_is

set_status_sent :
    on_broadcast true small_serde
      (set_status 1 2 3 (u16_command 8))
      (codes "spa/set")
      (publish_packet sent_back)
    ≡ returns (some (set_status_command 1 2 3 8 (5 ∷ 5 ∷ [])))
unfolding on_broadcast parse_command command_of ℕ_discrete
set_status_sent = refl

on_broadcast-IsAllowed_example :
    (p : Publish) × (publish_packet sent_back ≡ publish_packet p)
    × (p.dup ≡ false)
    × (p.topic_name ≡ codes "spa/set")
    × IsAllowed true small_serde (set_status 1 2 3 (u16_command 8)) p.payload 1 2 3 8 (5 ∷ 5 ∷ [])
on_broadcast-IsAllowed_example =
    on_broadcast-IsAllowed true small_serde (set_status 1 2 3 (u16_command 8)) (codes "spa/set")
      (publish_packet sent_back) 1 2 3 8 (5 ∷ 5 ∷ []) (omega arith, omega arith) set_status_sent

abbrev topics : TopicGenerator
topics = record { discovery_topic = codes "homeassistant"; base_topic = codes "spa" }

-- A light with a state, a value and a command.
abbrev light : GenericMapping
light = record {
  mqtt_type = codes "light";
  unique_id = codes "l1";
  qos = 1;
  mqtt_values =
      (codes "state_topic", state_type (u8 3))
      ∷ (codes "optimistic", value_type null)
      ∷ (codes "command_topic", command_type (set_status 1 2 3 (u8_command 3)))
      ∷ [];
}

light-IsSegment : IsSegment (codes "light")
light-IsSegment =
    segment 108 _ (omega arith) (omega arith, (omega arith, (omega arith, (omega arith, tt))))

id-IsSegment : IsSegment (codes "l1")
id-IsSegment = segment 108 _ (omega arith) (omega arith, tt)

at_command : get_elem? (topics_of (add_generic topics light)) 1 ≡ some (codes "spa/light/l1/2/set")
unfolding configure topic digits_onto ℕ_discrete
at_command = refl

add_generic-injective_example :
    (codes "light" ≡ codes "light") × (codes "l1" ≡ codes "l1") × (◌≡◌ {A = ℕ} 1 1)
add_generic-injective_example =
    add_generic-injective topics light light 1 1 _ light-IsSegment light-IsSegment id-IsSegment
      id-IsSegment at_command at_command

-- Two states, which are sent in the other order.
abbrev two_states : Mapping
two_states = add_state (add_state new_mapping 1) 2

-- One job publishes; the other ends before that, and `start` takes its lock.
abbrev one_sent : List StartEvent
one_sent = first_sent 1 ∷ ticked ∷ job_ended 2 ∷ ticked ∷ []

one_started : (start two_states one_sent).1 ≡ started
unfolding start_from ℕ_discrete
one_started = refl

start-sent_example :
    ((start two_states one_sent).0.active ≡ true)
    × ((start two_states one_sent).0.uninitialized ≡ [])
    × All (IsReleased one_sent) two_states.uninitialized
start-sent_example = start-sent two_states one_sent one_started
