-- ===== src/Session/Packet.antt =====
-- The packets of the crate mqttrs that intouch2-mqtt/src/mqtt_session.rs builds and matches, and its
-- own errors. A packet that the source never names is `other`, with its type. The crate's
-- `encode_slice`, `decode_slice` and `get_type` are parameters.
use intouch2_mqtt.Base.{ℕ, Bool, Option, none, some, List, Bytes}

pub data QosPid : Type 0 where
  at_most_once : QosPid
  at_least_once : ℕ → QosPid
  exactly_once : ℕ → QosPid

pub record Publish : Type 0 where
  pub dup : Bool
  pub qospid : QosPid
  pub retain : Bool
  pub topic_name : Bytes
  pub payload : Bytes

-- The quality of service of every topic is the same in this program.
pub record SubscribeTopic : Type 0 where
  pub topic_path : Bytes
  pub qos : ℕ

pub data SubscribeReturnCode : Type 0 where
  success : ℕ → SubscribeReturnCode
  failure : SubscribeReturnCode

pub record LastWill : Type 0 where
  pub topic : Bytes
  pub message : Bytes
  pub qos : ℕ
  pub retain : Bool

pub record Connect : Type 0 where
  pub keep_alive : ℕ
  pub client_id : Bytes
  pub clean_session : Bool
  pub last_will : Option LastWill
  pub username : Option Bytes
  pub password : Option Bytes

pub data ConnectReturnCode : Type 0 where
  accepted : ConnectReturnCode
  refused : ℕ → ConnectReturnCode

pub data Packet : Type 0 where
  connect_packet : Connect → Packet
  connack : Bool → ConnectReturnCode → Packet
  publish_packet : Publish → Packet
  puback : ℕ → Packet
  pubrec : ℕ → Packet
  pubrel : ℕ → Packet
  subscribe_packet : ℕ → List SubscribeTopic → Packet
  suback : ℕ → List SubscribeReturnCode → Packet
  pingreq : Packet
  pingresp : Packet
  other : ℕ → Packet

-- `encode_slice` into a buffer of 4096 bytes: none is an error. `decode_slice`: none is an error,
-- `some none` too few bytes.
pub record Codec : Type 0 where
  pub encode_slice : Packet → Option Bytes
  pub decode_slice : Bytes → Option (Option Packet)
  pub get_type : Packet → ℕ

pub data MqttError : Type 0 where
  encoding : MqttError
  not_enough_data : Bytes → MqttError
  unexpected_packet_type : ℕ → MqttError
  authentication_failed : ConnectReturnCode → MqttError
  mqtt_subscribe_timeout : List SubscribeTopic → MqttError
  mqtt_subscribe_failed : List SubscribeTopic → MqttError
  mqtt_recv_error : MqttError
  mqtt_publish_reply : MqttError
  publish_timeout : MqttError

pub data Result {ℓ} (A : Type ℓ) : Type ℓ where
  ok : A → Result A
  err : MqttError → Result A

-- The operator `?`.
abbrev pub and_then {ℓ κ} : {A : Type ℓ} {B : Type κ} → Result A → (A → Result B) → Result B
and_then (ok a) f = f a
and_then (err e) f = err e

-- An encoding, or the error of `encode_slice`.
abbrev pub encoded : Option Bytes → Result Bytes
encoded (some bytes) = ok bytes
encoded none = err encoding

-- `MqttPacket::try_from`
abbrev pub packet_or : Bytes → Option (Option Packet) → Result Packet
packet_or value none = err encoding
packet_or value (some none) = err (not_enough_data value)
packet_or value (some (some packet)) = ok packet

unfoldable pub try_from : Codec → Bytes → Result Packet
try_from codec value = packet_or value (codec.decode_slice value)
