-- ===== src/Session/Recv.antt =====
-- `Session::recv` of intouch2-mqtt/src/mqtt_session.rs. What its `select!` sees is a list of events;
-- what it does to the outside is a list of effects.
use intouch2_mqtt.Base.{
  ℕ, ◌≡◌, ◌≢◌, refl, ap, sym, ◌∙◌, subst, Bool, true, false, Option, none, some, List, [], ◌∷◌,
  ◌++◌, Bytes, All,
}
use intouch2_mqtt.Session.Packet.{
  QosPid, at_most_once, at_least_once, exactly_once, Publish, Packet, connect_packet, connack,
  publish_packet, puback, pubrec, pubrel, subscribe_packet, suback, pingreq, pingresp, other, Codec,
  MqttError, encoding, mqtt_publish_reply, Result, ok, err, try_from,
}
use intouch2_mqtt.Session.Publish.{PublishQueueEntry, publish_of}
pub mod Delivery

-- What the `select!` of `recv` sees. An entry of the publish queue comes with whether someone still
-- waits for its response.
pub data RecvEvent : Type 0 where
  read : Bytes → RecvEvent
  ping_tick : RecvEvent
  to_send : Bytes → RecvEvent
  job_result : Result (Unit {0}) → RecvEvent
  to_publish : PublishQueueEntry → Bool → RecvEvent

pub data Effect : Type 0 where
  writes : Bytes → Effect
  broadcasts : Packet → Effect
  spawns : PublishQueueEntry → Effect
  responds : Result (Unit {0}) → Effect

-- One turn of the loop: it goes on, it returns a packet, or it fails.
pub data RecvStep : Type 0 where
  goes_on : List Effect → RecvStep
  delivers : Packet → RecvStep
  aborts : List Effect → MqttError → RecvStep

-- A packet that `recv` writes itself.
abbrev pub write_or : Option Bytes → RecvStep
write_or (some bytes) = goes_on (writes bytes ∷ [])
write_or none = aborts [] encoding

abbrev pub on_read : Codec → Result Packet → RecvStep
on_read codec (err e) = aborts [] e
on_read codec (ok pingreq) = write_or (codec.encode_slice pingresp)
on_read codec (ok pingresp) = goes_on []
on_read codec (ok packet) = delivers packet

-- A packet without acknowledgement is written at once.
abbrev pub publish_at_once : Option Bytes → Bool → RecvStep
publish_at_once none listens = aborts [] encoding
publish_at_once (some bytes) true = goes_on (writes bytes ∷ responds (ok tt) ∷ [])
publish_at_once (some bytes) false = aborts (writes bytes ∷ []) mqtt_publish_reply

abbrev pub on_publish : Codec → PublishQueueEntry → QosPid → Bool → RecvStep
on_publish codec entry at_most_once listens =
    publish_at_once (codec.encode_slice (publish_of entry 0)) listens
on_publish codec entry _ listens = goes_on (spawns entry ∷ [])

abbrev pub on_job : Result (Unit {0}) → RecvStep
on_job (ok _) = goes_on []
on_job (err e) = aborts [] e

unfoldable pub recv_step : Codec → RecvEvent → RecvStep
recv_step codec (read bytes) = on_read codec (try_from codec bytes)
recv_step codec ping_tick = write_or (codec.encode_slice pingreq)
recv_step codec (to_send bytes) = goes_on (writes bytes ∷ [])
recv_step codec (job_result r) = on_job r
recv_step codec (to_publish entry listens) = on_publish codec entry entry.qospid listens

-- How `recv` ends: it still waits, it returns a packet with the events after it, or it fails.
pub data RecvEnd : Type 0 where
  pending : RecvEnd
  returned : Packet → List RecvEvent → RecvEnd
  failed : MqttError → RecvEnd

pub record Receiving : Type 0 where
  pub effects : List Effect
  pub end : RecvEnd

-- The turn, then what comes after it.
abbrev pub after : RecvStep → List RecvEvent → Receiving → Receiving
after (goes_on effects) events rest = record rest { effects = effects ++ rest.effects }
after (delivers packet) events rest = record {
  effects = broadcasts packet ∷ [];
  end = returned packet events;
}
after (aborts effects e) events rest = record { effects = effects; end = failed e }

unfoldable pub recv : Codec → List RecvEvent → Receiving
recv codec [] = record { effects = []; end = pending }
recv codec (event ∷ events) = after (recv_step codec event) events (recv codec events)

-- What an event before the returned packet may be, and all that is done for it: a request is
-- answered, an answer ignored, a tick asks, what is queued is written as it is; a packet without
-- acknowledgement is written and its sender told, and any other gets a job.
pub data Handles (codec : Codec) : RecvEvent → List Effect → Type 0 where
  answers_ping :
      (bytes response : Bytes)
      → try_from codec bytes ≡ ok pingreq
      → codec.encode_slice pingresp ≡ some response
      → Handles codec (read bytes) (writes response ∷ [])
  ignores_pong :
      (bytes : Bytes) → try_from codec bytes ≡ ok pingresp → Handles codec (read bytes) []
  asks :
      (request : Bytes)
      → codec.encode_slice pingreq ≡ some request
      → Handles codec ping_tick (writes request ∷ [])
  passes_on : (bytes : Bytes) → Handles codec (to_send bytes) (writes bytes ∷ [])
  collects : Handles codec (job_result (ok tt)) []
  publishes :
      (entry : PublishQueueEntry) (bytes : Bytes)
      → entry.qospid ≡ at_most_once
      → codec.encode_slice (publish_of entry 0) ≡ some bytes
      → Handles codec (to_publish entry true) (writes bytes ∷ responds (ok tt) ∷ [])
  starts_job :
      (entry : PublishQueueEntry) (listens : Bool)
      → entry.qospid ≢ at_most_once
      → Handles codec (to_publish entry listens) (spawns entry ∷ [])

-- Events that are handled one after the other, and all that is done for them.
pub data HandlesAll (codec : Codec) : List RecvEvent → List Effect → Type 0 where
  none_left : HandlesAll codec [] []
  then :
      {event : RecvEvent} {events : List RecvEvent} {now later : List Effect}
      → Handles codec event now
      → HandlesAll codec events later
      → HandlesAll codec (event ∷ events) (now ++ later)
