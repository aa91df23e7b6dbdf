-- ===== src/Session/Connect.antt =====
-- `SessionBuilder::connect` and `Session::notify_online` of intouch2-mqtt/src/mqtt_session.rs, with
-- the bytes that the broker answers as an argument.
use intouch2_mqtt.Base.{ℕ, ◌/◌, ◌≡◌, refl, ap, Bool, true, false, Option, none, some, Bytes, codes}
use mathlib.Core.Option
use intouch2_mqtt.Session.Packet.{
  at_least_once, LastWill, Connect, ConnectReturnCode, accepted, refused, Packet, connect_packet,
  connack, publish_packet, puback, pubrec, pubrel, subscribe_packet, suback, pingreq, pingresp,
  other, Codec, unexpected_packet_type, authentication_failed, Result, ok, err, and_then, encoded,
  packet_or,
}
use intouch2_mqtt.Session.Pid.{first_pid}
use intouch2_mqtt.Session.Publish.{PublishQueueEntry}

pub data MqttAuth : Type 0 where
  simple : (username password : Bytes) → MqttAuth
  no_auth : MqttAuth

-- Without the socket address, which only the connection uses.
pub record SessionBuilder : Type 0 where
  pub discovery_topic : Bytes
  pub availability_topic : Option Bytes
  pub base_topic : Bytes
  pub auth : MqttAuth
  pub keep_alive : ℕ
  pub publish_retries : ℕ
  pub publish_timeout : ℕ

-- A new session, without its socket, its channels and its empty set of jobs.
pub record Session : Type 0 where
  pub discovery_topic : Bytes
  pub availability_topic : Option Bytes
  pub base_topic : Bytes
  pub pid : ℕ
  pub publish_timeout : ℕ
  pub publish_retries : ℕ
  pub ping_interval : ℕ

abbrev pub client_id : Bytes
client_id = codes "spa_client"

abbrev pub will_of : Option Bytes → Option LastWill
will_of (some topic) =
    some (record { topic = topic; message = codes "offline"; qos = 0; retain = false })
will_of none = none

abbrev pub username_of : MqttAuth → Option Bytes
username_of (simple username password) = some username
username_of no_auth = none

abbrev pub password_of : MqttAuth → Option Bytes
password_of (simple username password) = some password
password_of no_auth = none

abbrev pub connect_of : SessionBuilder → Connect
connect_of builder = record {
  keep_alive = builder.keep_alive;
  client_id = client_id;
  clean_session = true;
  last_will = will_of builder.availability_topic;
  username = username_of builder.auth;
  password = password_of builder.auth;
}

abbrev pub session_of : SessionBuilder → Session
session_of builder = record {
  discovery_topic = builder.discovery_topic;
  availability_topic = builder.availability_topic;
  base_topic = builder.base_topic;
  pid = first_pid;
  publish_timeout = builder.publish_timeout;
  publish_retries = builder.publish_retries;
  ping_interval = builder.keep_alive / 2;
}

abbrev pub on_connack : SessionBuilder → ConnectReturnCode → Result Session
on_connack builder accepted = ok (session_of builder)
on_connack builder (refused code) = err (authentication_failed (refused code))

abbrev pub on_response : Codec → SessionBuilder → Packet → Result Session
on_response codec builder (connack present code) = on_connack builder code
on_response codec builder packet = err (unexpected_packet_type (codec.get_type packet))

-- `connect`, with what the broker answers to the encoded packet.
unfoldable pub connect : Codec → SessionBuilder → (Bytes → Bytes) → Result Session
connect codec builder answer =
    and_then (encoded (codec.encode_slice (connect_packet (connect_of builder)))) λ sent.
      and_then (packet_or (answer sent) (codec.decode_slice (answer sent)))
        (on_response codec builder)

-- What `notify_online` publishes, and waits for.
abbrev pub notify_online : Session → ℕ → Option PublishQueueEntry
notify_online session pid =
    Option.map
      (λ topic. record { topic = topic; payload = codes "online"; qospid = at_least_once pid })
      session.availability_topic

on_response_ok :
    (codec : Codec) (builder : SessionBuilder) (packet : Packet) (session : Session)
    → on_response codec builder packet ≡ ok session
    → (present : Bool) × (packet ≡ connack present accepted) × (session ≡ session_of builder)
on_response_ok codec builder (connack present accepted) session h = (present, refl, cc)
on_response_ok codec builder (connack present (refused code)) session h = cc
on_response_ok codec builder (connect_packet c) session h = cc
on_response_ok codec builder (publish_packet p) session h = cc
on_response_ok codec builder (puback p) session h = cc
on_response_ok codec builder (pubrec p) session h = cc
on_response_ok codec builder (pubrel p) session h = cc
on_response_ok codec builder (subscribe_packet p ts) session h = cc
on_response_ok codec builder (suback p cs) session h = cc
on_response_ok codec builder pingreq session h = cc
on_response_ok codec builder pingresp session h = cc
on_response_ok codec builder (other n) session h = cc

decoded_ok :
    (codec : Codec) (builder : SessionBuilder) (answer : Bytes) (decoded : Option (Option Packet))
    (session : Session)
    → and_then (packet_or answer decoded) (on_response codec builder) ≡ ok session
    → (present : Bool) × (decoded ≡ some (some (connack present accepted)))
      × (session ≡ session_of builder)
decoded_ok codec builder answer none session h = cc
decoded_ok codec builder answer (some none) session h = cc
decoded_ok codec builder answer (some (some packet)) session h =
    let (present, e, s) = on_response_ok codec builder packet session h in
    (present, ap (λ p. some (some p)) e, s)

encoded_ok :
    (codec : Codec) (builder : SessionBuilder) (answer : Bytes → Bytes) (bytes : Option Bytes)
    (session : Session)
    → and_then (encoded bytes) (λ sent.
      and_then
        (packet_or (answer sent) (codec.decode_slice (answer sent)))
        (on_response codec builder))
      ≡ ok session
    → (sent : Bytes) × (present : Bool) × (bytes ≡ some sent)
      × (codec.decode_slice (answer sent) ≡ some (some (connack present accepted)))
      × (session ≡ session_of builder)
encoded_ok codec builder answer none session h = cc
encoded_ok codec builder answer (some sent) session h =
    let (present, e, s) = decoded_ok codec builder (answer sent) _ session h in
    (sent, present, refl, e, s)

-- There is a session only where the broker answered the connect packet with an accepting Connack.
pub connect_accepted :
    (codec : Codec) (builder : SessionBuilder) (answer : Bytes → Bytes) (session : Session)
    → connect codec builder answer ≡ ok session
    → (sent : Bytes) × (present : Bool) × (codec.encode_slice (connect_packet (connect_of builder))
        ≡ some sent)
      × (codec.decode_slice (answer sent) ≡ some (some (connack present accepted)))
      × (session ≡ session_of builder)
unfolding connect
connect_accepted codec builder answer session h = encoded_ok codec builder answer _ session h
