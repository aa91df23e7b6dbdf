-- ===== src/Session/Subscribe.antt =====
-- `Session::mqtt_subscribe` of intouch2-mqtt/src/mqtt_session.rs. What its waiting sees is a list of
-- events: the end of an attempt's time, or the result of `Session::recv`.
use intouch2_mqtt.Base.{
  ℕ, zero, suc, ◌≡◌, ◌≢◌, refl, ap, ◌∙◌, Bool, true, false, Option, none, some, List, [], ◌∷◌, ◌++◌,
  Bytes, ◌==◌, ==_iff, if◌then◌else◌, length, take, All, eq_of_some,
}
use intouch2_mqtt.Outcome.{Outcome, returns, ◌>>=◌, eq_of_returns}
use intouch2_mqtt.Session.Packet.{
  SubscribeTopic, SubscribeReturnCode, success, failure, Packet, connect_packet, connack,
  publish_packet, puback, pubrec, pubrel, subscribe_packet, suback, pingreq, pingresp, other, Codec,
  MqttError, encoding, mqtt_subscribe_timeout, mqtt_subscribe_failed, Result, ok, err,
}
use intouch2_mqtt.Session.Publish.{divided}
use intouch2_mqtt.Session.Publish.Ends.{then-returns}

pub data SubscribeEvent : Type 0 where
  slept : SubscribeEvent
  got : Packet → SubscribeEvent
  broke : MqttError → SubscribeEvent

-- What was written to the connection, and the result, or none while it waits.
pub record Subscribing : Type 0 where
  pub written : List Bytes
  pub result : Option (Result (Unit {0}))

abbrev pub finished : Result (Unit {0}) → Subscribing
finished r = record { written = []; result = some r }

abbrev pub writing : Bytes → Subscribing → Subscribing
writing bytes run = record run { written = bytes ∷ run.written }

-- The topics zipped with the codes, without those that succeeded.
unfoldable pub failed_topics : List SubscribeTopic → List SubscribeReturnCode → List SubscribeTopic
failed_topics (topic ∷ topics) (success _ ∷ codes) = failed_topics topics codes
failed_topics (topic ∷ topics) (failure ∷ codes) = topic ∷ failed_topics topics codes
failed_topics (topic ∷ topics) [] = []
failed_topics [] codes = []

abbrev pub suback_result : List SubscribeTopic → Result (Unit {0})
suback_result [] = ok tt
suback_result (topic ∷ failed) = err (mqtt_subscribe_failed (topic ∷ failed))

module _ (topics : List SubscribeTopic) (bytes : Bytes) (pid : ℕ) where
  abbrev pub on_received : Packet → Subscribing → Subscribing
  on_received (suback ack_pid codes) waiting =
      if ack_pid == pid then finished (suback_result (failed_topics topics codes)) else waiting
  on_received _ waiting = waiting

  -- The inner loop of an attempt, with the number of attempts after it.
  unfoldable pub listen : ℕ → List SubscribeEvent → Subscribing
  listen left [] = record { written = []; result = none }
  listen zero (slept ∷ events) = finished (err (mqtt_subscribe_timeout topics))
  listen (suc left) (slept ∷ events) = writing bytes (listen left events)
  listen left (broke e ∷ events) = finished (err e)
  listen left (got packet ∷ events) = on_received packet (listen left events)

  abbrev pub subscribe_attempts : ℕ → List SubscribeEvent → Subscribing
  subscribe_attempts zero events = finished (err (mqtt_subscribe_timeout topics))
  subscribe_attempts (suc left) events = writing bytes (listen left events)

abbrev pub encoded_subscribe :
    List SubscribeTopic → ℕ → ℕ → List SubscribeEvent → Option Bytes → Outcome Subscribing
encoded_subscribe topics pid retries events none = returns (finished (err encoding))
encoded_subscribe topics pid retries events (some bytes) =
    divided retries >>= λ _. returns (subscribe_attempts topics bytes pid retries events)

unfoldable pub mqtt_subscribe :
    Codec → List SubscribeTopic → ℕ → ℕ → List SubscribeEvent → Outcome Subscribing
mqtt_subscribe codec topics pid retries events =
    encoded_subscribe topics pid retries events (codec.encode_slice (subscribe_packet pid topics))

-- A code of success.
pub data IsSuccess : SubscribeReturnCode → Type 0 where
  succeeded : (qos : ℕ) → IsSuccess (success qos)

-- Each topic for which there is a code has a code of success.
none_failed :
    (topics : List SubscribeTopic) (codes : List SubscribeReturnCode)
    → suback_result (failed_topics topics codes) ≡ ok tt
    → All IsSuccess (take (length topics) codes)
unfolding failed_topics
none_failed [] codes h = tt
none_failed (topic ∷ topics) [] h = tt
none_failed (topic ∷ topics) (success q ∷ codes) h = (succeeded q, none_failed topics codes h)
none_failed (topic ∷ topics) (failure ∷ codes) h = cc

-- The broker granted the subscription with the packet id.
abbrev pub IsGranted : List SubscribeTopic → ℕ → List SubscribeEvent → Type 0
IsGranted topics pid events =
    (codes : List SubscribeReturnCode) × (earlier later : List SubscribeEvent) × (events
      ≡ earlier ++ got (suback pid codes) ∷ later)
    × All IsSuccess (take (length topics) codes)

module _ (topics : List SubscribeTopic) (bytes : Bytes) (pid : ℕ) where
  later-IsGranted :
      (e : SubscribeEvent) (events : List SubscribeEvent)
      → IsGranted topics pid events
      → IsGranted topics pid (e ∷ events)
  later-IsGranted e events (codes, earlier, later, h, k) =
      (codes, e ∷ earlier, later, ap (◌∷◌ e) h, k)

  on_received-IsGranted :
      (packet : Packet) (events : List SubscribeEvent) (run : Subscribing)
      → (run.result ≡ some (ok tt) → IsGranted topics pid events)
      → (on_received topics bytes pid packet run).result ≡ some (ok tt)
      → IsGranted topics pid (got packet ∷ events)
  on_received-IsGranted (suback ack_pid codes) events run h k =
      granted (ack_pid == pid) (λ e. (==_iff ack_pid pid).0 e) k
    where
      granted :
          (b : Bool)
          → (b ≡ true → ack_pid ≡ pid)
          → (if b then finished (suback_result (failed_topics topics codes)) else run).result
            ≡ some (ok tt)
          → IsGranted topics pid (got (suback ack_pid codes) ∷ events)
      granted true e r = (
        codes,
        [],
        events,
        ap (λ p. got (suback p codes) ∷ events) (e refl),
        none_failed topics codes (eq_of_some r),
      )
      granted false e r = later-IsGranted _ events (h r)
  on_received-IsGranted (connect_packet c) events run h k = later-IsGranted _ events (h k)
  on_received-IsGranted (connack b c) events run h k = later-IsGranted _ events (h k)
  on_received-IsGranted (publish_packet p) events run h k = later-IsGranted _ events (h k)
  on_received-IsGranted (puback p) events run h k = later-IsGranted _ events (h k)
  on_received-IsGranted (pubrec p) events run h k = later-IsGranted _ events (h k)
  on_received-IsGranted (pubrel p) events run h k = later-IsGranted _ events (h k)
  on_received-IsGranted (subscribe_packet p t) events run h k = later-IsGranted _ events (h k)
  on_received-IsGranted pingreq events run h k = later-IsGranted _ events (h k)
  on_received-IsGranted pingresp events run h k = later-IsGranted _ events (h k)
  on_received-IsGranted (other n) events run h k = later-IsGranted _ events (h k)

  listen-IsGranted :
      (left : ℕ) (events : List SubscribeEvent)
      → (listen topics bytes pid left events).result ≡ some (ok tt)
      → IsGranted topics pid events
  unfolding listen
  listen-IsGranted left [] h = cc
  listen-IsGranted zero (slept ∷ events) h = cc
  listen-IsGranted (suc left) (slept ∷ events) h =
      later-IsGranted _ events (listen-IsGranted left events h)
  listen-IsGranted zero (broke e ∷ events) h = cc
  listen-IsGranted (suc left) (broke e ∷ events) h = cc
  listen-IsGranted zero (got packet ∷ events) h =
      on_received-IsGranted packet events _ (listen-IsGranted zero events) h
  listen-IsGranted (suc left) (got packet ∷ events) h =
      on_received-IsGranted packet events _ (listen-IsGranted (suc left) events) h

  attempts-IsGranted :
      (retries : ℕ) (events : List SubscribeEvent)
      → (subscribe_attempts topics bytes pid retries events).result ≡ some (ok tt)
      → IsGranted topics pid events
  attempts-IsGranted zero events h = cc
  attempts-IsGranted (suc left) events h = listen-IsGranted left events h

encoded_subscribe-IsGranted :
    (topics : List SubscribeTopic) (pid retries : ℕ) (events : List SubscribeEvent)
    (bytes : Option Bytes) (run : Subscribing)
    → encoded_subscribe topics pid retries events bytes ≡ returns run
    → run.result ≡ some (ok tt)
    → IsGranted topics pid events
encoded_subscribe-IsGranted topics pid retries events none run h k =
    absurd (refused (ap (λ r. r.result) (eq_of_returns h) ∙ k))
  where
    refused : some (err encoding) ≢ some (ok (tt {0}))
    refused e = cc
encoded_subscribe-IsGranted topics pid retries events (some bytes) run h k =
    attempts-IsGranted topics bytes pid retries events
      (ap (λ r. r.result) (then-returns (divided retries) _ run h) ∙ k)

-- Subscribing that does not panic and results in success has received a Suback with its own
-- packet id, in which every code that stands for one of the topics is a success.
pub mqtt_subscribe-IsGranted :
    (codec : Codec) (topics : List SubscribeTopic) (pid retries : ℕ) (events : List SubscribeEvent)
    (run : Subscribing)
    → mqtt_subscribe codec topics pid retries events ≡ returns run
    → run.result ≡ some (ok tt)
    → IsGranted topics pid events
unfolding mqtt_subscribe
mqtt_subscribe-IsGranted codec topics pid retries events run h k =
    encoded_subscribe-IsGranted topics pid retries events _ run h k
