-- ===== src/Session/Publish.antt =====
-- The job of `Session::recv` of intouch2-mqtt/src/mqtt_session.rs that publishes with an
-- acknowledgement. What its waiting sees is a list of events; what is queued for the connection is
-- a list of packets.
use intouch2_mqtt.Base.{
  ℕ, suc, ◌+◌, Bool, true, false, not, Option, none, some, List, [], ◌∷◌, Bytes, ◌==◌, leb,
  if◌then◌else◌,
}
use intouch2_mqtt.Outcome.{Outcome, returns, panics, ◌>>=◌}
use intouch2_mqtt.Session.Packet.{
  QosPid, at_most_once, at_least_once, exactly_once, Publish, Packet, publish_packet, puback,
  pubrec, pubrel, Codec, MqttError, encoding, mqtt_recv_error, mqtt_publish_reply, publish_timeout,
  Result, ok, err,
}
pub mod Ends
pub mod Attempts
pub mod Termination

-- `PublishQueueEntry`, without the end of the channel that the answer goes to.
pub record PublishQueueEntry : Type 0 where
  pub topic : Bytes
  pub payload : Bytes
  pub qospid : QosPid

-- What the `select!` of the job sees.
pub data Event : Type 0 where
  real_timeout : Event
  attempt_timeout : Event
  received : Packet → Event
  recv_failed : Event

-- Where a job is: it waits, it has answered, or it failed without an answer.
pub data Status : Type 0 where
  waits : Status
  responds : Result (Unit {0}) → Status
  fails : MqttError → Status

pub record Run : Type 0 where
  pub sent : List Packet
  pub status : Status

abbrev pub stop : Status → Run
stop s = record { sent = []; status = s }

abbrev pub sending : Packet → Run → Run
sending p run = record run { sent = p ∷ run.sent }

-- A packet given to `PacketSender::send`, which fails where it cannot be encoded.
abbrev pub send_or : Option Bytes → Packet → Run → Run → Run
send_or (some bytes) p run failed = sending p run
send_or none p run failed = failed

-- A `Duration` divided by a number.
abbrev pub divided : ℕ → Outcome (Unit {0})
divided n = if n == 0 then panics else returns tt

-- `timeout` of a job.
abbrev pub attempt_duration : QosPid → ℕ → Outcome (Unit {0})
attempt_duration at_most_once retries = panics
attempt_duration (at_least_once _) retries = divided retries
attempt_duration (exactly_once _) retries = returns tt

abbrev pub publish_of : PublishQueueEntry → ℕ → Packet
publish_of entry attempt = publish_packet (record {
  dup = not (attempt == 0);
  qospid = entry.qospid;
  retain = false;
  topic_name = entry.topic;
  payload = entry.payload;
})

-- The end of an attempt's own time: the next attempt, or an answer.
abbrev pub next_attempt : QosPid → Run → Run
next_attempt (at_least_once _) again = again
next_attempt _ again = stop (responds (err publish_timeout))

module _ (codec : Codec) (entry : PublishQueueEntry) (retries : ℕ) where
  -- The head of the loop: an attempt is sent, or there is none left.
  abbrev pub attempt_at : ℕ → Run → Run
  attempt_at attempt waiting =
      if leb attempt retries
      then send_or (codec.encode_slice (publish_of entry attempt)) (publish_of entry attempt)
          waiting (stop (responds (err encoding)))
      else stop (responds (err publish_timeout))

  -- A packet that was broadcast to the job.
  abbrev pub on_packet : ℕ → Packet → Run → Run
  on_packet pid (puback ack_pid) waiting =
      if ack_pid == pid then stop (responds (ok tt)) else waiting
  on_packet pid (pubrec ack_pid) waiting =
      if ack_pid == pid
      then send_or (codec.encode_slice (pubrel ack_pid)) (pubrel ack_pid) (stop (responds (ok tt)))
          (stop (fails encoding))
      else waiting
  on_packet pid _ waiting = waiting

  -- The inner loop of one attempt, and the attempts after it.
  unfoldable pub wait : ℕ → ℕ → List Event → Run
  wait pid attempt [] = stop waits
  wait pid attempt (real_timeout ∷ events) = stop (responds (err publish_timeout))
  wait pid attempt (recv_failed ∷ events) = stop (responds (err mqtt_recv_error))
  wait pid attempt (attempt_timeout ∷ events) =
      next_attempt entry.qospid (attempt_at (attempt + 1) (wait pid (attempt + 1) events))
  wait pid attempt (received packet ∷ events) = on_packet pid packet (wait pid attempt events)

  abbrev pub attempts : QosPid → List Event → Run
  attempts at_most_once events = stop waits
  attempts (at_least_once pid) events = attempt_at 0 (wait pid 0 events)
  attempts (exactly_once pid) events = attempt_at 0 (wait pid 0 events)

  -- The whole job, which is only spawned with an acknowledgement.
  unfoldable pub publish_job : List Event → Outcome Run
  publish_job events =
      attempt_duration entry.qospid retries >>= λ _. returns (attempts entry.qospid events)

-- What the job returns to the session, where someone listens for its answer or nobody does.
abbrev pub job_result : Bool → Status → Option (Result (Unit {0}))
job_result listens waits = none
job_result true (responds r) = some (ok tt)
job_result false (responds r) = some (err mqtt_publish_reply)
job_result listens (fails e) = some (err e)
