-- ===== src/Mapping/Generic.antt =====
-- `Mapping::add_generic` of intouch2-mqtt/src/mapping.rs: the topics that it gives to the values of a
-- mapping, and the quality of service.
pub mod Topics
use intouch2_mqtt.Base.{
  ℕ, zero, suc, ◌+◌, ◌/◌, ◌%◌, List, [], ◌∷◌, ◌++◌, Bytes, ltb, ◌==◌, if◌then◌else◌,
}
use intouch2_mqtt.Session.Packet.{QosPid, at_most_once, at_least_once, exactly_once}
use intouch2_mqtt.Session.Topic.{Topic, state, set, config, TopicGenerator, topic}
use intouch2_mqtt.Mapping.{Value, MappingType}
use intouch2_mqtt.Mapping.Command.{CommandMappingType}

pub data MqttType : Type 0 where
  state_type : MappingType → MqttType
  command_type : CommandMappingType → MqttType
  value_type : Value → MqttType

-- The entries of the map of values in the order in which they are iterated over.
pub record GenericMapping : Type 0 where
  pub mqtt_type : Bytes
  pub unique_id : Bytes
  pub qos : ℕ
  pub mqtt_values : List (Bytes × MqttType)

-- `next_qos`, with the packet id that the publisher gives.
abbrev pub next_qos : ℕ → ℕ → QosPid
next_qos qos pid =
    if qos == 1 then at_least_once pid else if qos == 2 then exactly_once pid else at_most_once

-- `format!("{counter}")`: the decimal digits of a number in front of others, on fuel.
unfoldable pub digits_onto : ℕ → ℕ → Bytes → Bytes
digits_onto zero n digits = digits
digits_onto (suc fuel) n digits =
    let more = digits_onto fuel (n / 10) ((48 + n % 10) ∷ digits) in
    if ltb n 10 then (48 + n) ∷ digits else more

abbrev pub decimal : ℕ → Bytes
decimal n = digits_onto (suc n) n []

-- What becomes of an entry: a job that publishes to a topic, a job that listens to one, or the value.
pub data Configured : Type 0 where
  publishes : Bytes → MappingType → Configured
  listens : Bytes → CommandMappingType → Configured
  holds : Value → Configured

module _ (g : TopicGenerator) (mapping : GenericMapping) where
  abbrev pub config_topic : Bytes
  config_topic = topic g mapping.mqtt_type mapping.unique_id config

  -- `next_topic`, behind the counter.
  abbrev pub next_topic : ℕ → Topic → Bytes
  next_topic counter role =
      topic g mapping.mqtt_type (mapping.unique_id ++ (47 ∷ decimal counter)) role

  -- The loop over the entries.
  unfoldable pub configure : ℕ → List (Bytes × MqttType) → List (Bytes × Configured)
  configure counter [] = []
  configure counter ((key, state_type type) ∷ values) =
      (key, publishes (next_topic (counter + 1) state) type) ∷ configure (counter + 1) values
  configure counter ((key, command_type command) ∷ values) =
      (key, listens (next_topic (counter + 1) set) command) ∷ configure (counter + 1) values
  configure counter ((key, value_type value) ∷ values) =
      (key, holds value) ∷ configure counter values

  abbrev pub add_generic : List (Bytes × Configured)
  add_generic = configure 0 mapping.mqtt_values
