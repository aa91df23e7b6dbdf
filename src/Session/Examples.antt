-- ===== src/Session/Examples.antt =====
-- Packet ids, with a conversion that refuses zero, and runs of the session with a small codec.
use native.Mathlib.Decide.{ℕ_discrete}
use intouch2_mqtt.Base.{
  ℕ, zero, suc, ◌+◌, ◌<◌, ◌≤◌, ◌^◌, ◌≡◌, ◌≢◌, refl, Option, none, some, arith, List, [], ◌∷◌, ◌++◌,
  map, Bytes, ◌==◌, if◌then◌else◌, codes, true,
}
use intouch2_mqtt.Outcome.{returns}
use intouch2_mqtt.Session.Pid.{next_pid, next_pid_twice}
use intouch2_mqtt.Session.Packet.{
  Packet, QosPid, at_least_once, exactly_once, at_most_once, puback, pubrec, pubrel, suback,
  pingreq, pingresp, publish_packet, subscribe_packet, Codec, SubscribeTopic, success, ok, try_from,
}
use intouch2_mqtt.Session.Publish.{
  PublishQueueEntry, Event, attempt_timeout, received, Run, waits, responds, publish_of,
  publish_job, wait,
}
use intouch2_mqtt.Session.Publish.Ends.{
  Carries, by_at_least_once, IsAcknowledged, publish_job-IsAcknowledged,
}
use intouch2_mqtt.Session.Publish.Attempts.{from, Closing, publish_job-sent}
use intouch2_mqtt.Session.Publish.Termination.{publish_job-ends}
use intouch2_mqtt.Session.Subscribe.{
  SubscribeEvent, slept, got, Subscribing, mqtt_subscribe, listen, failed_topics, IsGranted,
  mqtt_subscribe-IsGranted,
}
use intouch2_mqtt.Session.Recv.{
  RecvEvent, read, ping_tick, to_send, to_publish, recv, recv_step, returned,
}
use intouch2_mqtt.Session.Recv.Delivery.{IsDelivery, recv-IsDelivery}

abbrev nonzero : ℕ → Option ℕ
nonzero zero = none
nonzero (suc n) = some (suc n)

nonzero_takes : (n : ℕ) → 0 < n → n < 2 ^ 16 → nonzero n ≡ some n
nonzero_takes zero h k = absurd (omega arith)
nonzero_takes (suc n) h k = refl

-- The last id, before the counter wraps.
next_pid_twice_example :
    (pid pid' next next' : ℕ) × (next_pid nonzero 2 65535 ≡ some (pid, next))
    × (next_pid nonzero 2 next ≡ some (pid', next'))
    × (0 < pid)
    × (pid < 2 ^ 16)
    × (next < 2 ^ 16)
    × (pid ≢ pid')
next_pid_twice_example = next_pid_twice nonzero refl nonzero_takes 65535 (omega arith)

-- The first byte of each packet, and the packet id.
abbrev encode : Packet → Option Bytes
encode (publish_packet p) = some (48 ∷ [])
encode (puback pid) = some (64 ∷ pid ∷ [])
encode (pubrec pid) = some (80 ∷ pid ∷ [])
encode (pubrel pid) = some (98 ∷ pid ∷ [])
encode (subscribe_packet pid topics) = some (130 ∷ pid ∷ [])
encode pingreq = some (192 ∷ [])
encode pingresp = some (208 ∷ [])
encode _ = none

abbrev decode : Bytes → Option (Option Packet)
decode [] = some none
decode (byte ∷ []) =
    if byte == 192 then some (some pingreq) else if byte == 208 then some (some pingresp) else none
decode (byte ∷ pid ∷ _) = if byte == 64 then some (some (puback pid)) else none

abbrev small : Codec
small = record { encode_slice = encode; decode_slice = decode; get_type = λ p. 0 }

abbrev entry : QosPid → PublishQueueEntry
entry q = record { topic = codes "spa/light"; payload = codes "1"; qospid = q }

-- An answer after a repeated attempt, and the answer to another one before it.
abbrev answered_late : List Event
answered_late = attempt_timeout ∷ received (puback 3) ∷ received (puback 7) ∷ attempt_timeout ∷ []

abbrev late_run : Run
late_run = record {
  sent = publish_of (entry (at_least_once 7)) 0 ∷ publish_of (entry (at_least_once 7)) 1 ∷ [];
  status = responds (ok tt);
}

late_run_returned : publish_job small (entry (at_least_once 7)) 2 answered_late ≡ returns late_run
unfolding publish_job wait ℕ_discrete
late_run_returned = refl

-- An answer to a packet that is sent exactly once.
abbrev once_run : Run
once_run = record {
  sent = publish_of (entry (exactly_once 9)) 0 ∷ pubrel 9 ∷ [];
  status = responds (ok tt);
}

once_run_returned :
    publish_job small (entry (exactly_once 9)) 2 (received (pubrec 9) ∷ []) ≡ returns once_run
unfolding publish_job wait ℕ_discrete
once_run_returned = refl

publish_job-IsAcknowledged_example :
    (pid : ℕ) × Carries (exactly_once 9) pid
    × IsAcknowledged pid (received (pubrec 9) ∷ []) once_run.sent
publish_job-IsAcknowledged_example =
    publish_job-IsAcknowledged small (entry (exactly_once 9)) 2 (received (pubrec 9) ∷ []) once_run
      once_run_returned refl

publish_job-sent_example :
    (n : ℕ) × (closing : List Packet) × (late_run.sent
      ≡ map (publish_of (entry (at_least_once 7))) (from 0 n) ++ closing)
    × Closing 7 closing
    × (n ≤ 2 + 1)
publish_job-sent_example =
    publish_job-sent small (entry (at_least_once 7)) 2 7 answered_late late_run (by_at_least_once 7)
      late_run_returned

publish_job-ends_example :
    (run : Run) × (publish_job small
        (entry (at_least_once 7))
        1
        (attempt_timeout ∷ attempt_timeout ∷ [])
      ≡ returns run)
    × (run.status ≢ waits)
publish_job-ends_example =
    publish_job-ends small (entry (at_least_once 7)) 1 7 (attempt_timeout ∷ attempt_timeout ∷ [])
      (by_at_least_once 7) (omega arith) refl

abbrev light_topic : SubscribeTopic
light_topic = record { topic_path = codes "spa/light"; qos = 0 }

-- Granted at the second attempt.
abbrev granted_late : List SubscribeEvent
granted_late = slept ∷ got (suback 4 (success 0 ∷ [])) ∷ []

abbrev granted_run : Subscribing
granted_run = record { written = (130 ∷ 4 ∷ []) ∷ (130 ∷ 4 ∷ []) ∷ []; result = some (ok tt) }

granted_run_returned :
    mqtt_subscribe small (light_topic ∷ []) 4 3 granted_late ≡ returns granted_run
unfolding mqtt_subscribe listen failed_topics ℕ_discrete
granted_run_returned = refl

mqtt_subscribe-IsGranted_example : IsGranted (light_topic ∷ []) 4 granted_late
mqtt_subscribe-IsGranted_example =
    mqtt_subscribe-IsGranted small (light_topic ∷ []) 4 3 granted_late granted_run
      granted_run_returned refl

-- A request, a tick and a queued packet before the packet that is returned.
abbrev busy : List RecvEvent
busy =
    read (192 ∷ [])
    ∷ ping_tick
    ∷ to_send (1 ∷ 2 ∷ [])
    ∷ to_publish (entry at_most_once) true
    ∷ read (64 ∷ 5 ∷ [])
    ∷ ping_tick
    ∷ []

busy_returned : (recv small busy).end ≡ returned (puback 5) (ping_tick ∷ [])
unfolding recv recv_step try_from ℕ_discrete
busy_returned = refl

recv-IsDelivery_example :
    IsDelivery small busy (recv small busy).effects (puback 5) (ping_tick ∷ [])
recv-IsDelivery_example = recv-IsDelivery small busy (puback 5) (ping_tick ∷ []) busy_returned
