-- ===== src/Session/Recv/Delivery.antt =====
-- What `Session::recv` has done when it returns a packet.
use intouch2_mqtt.Base.{
  ℕ, append_assoc, ◌≡◌, ◌≢◌, refl, ap, sym, ◌∙◌, Bool, true, false, Option, none, some, List, [],
  ◌∷◌, ◌++◌, Bytes,
}
use intouch2_mqtt.Session.Packet.{
  QosPid, at_most_once, at_least_once, exactly_once, Packet, connect_packet, connack,
  publish_packet, puback, pubrec, pubrel, subscribe_packet, suback, pingreq, pingresp, other, Codec,
  MqttError, Result, ok, err, try_from,
}
use intouch2_mqtt.Session.Publish.{PublishQueueEntry, publish_of}
use intouch2_mqtt.Session.Recv.{
  RecvEvent, read, ping_tick, to_send, job_result, to_publish, Effect, writes, broadcasts, spawns,
  responds, RecvStep, goes_on, delivers, aborts, write_or, on_read, publish_at_once, on_publish,
  recv_step, returned, Receiving, after, recv, Handles, answers_ping, ignores_pong, asks, passes_on,
  collects, publishes, starts_job, HandlesAll, none_left, then,
}

-- The three kinds of turns.
data Turn (codec : Codec) : RecvEvent → RecvStep → Type 0 where
  handled :
      {event : RecvEvent} (effects : List Effect)
      → Handles codec event effects
      → Turn codec event (goes_on effects)
  delivered :
      (bytes : Bytes) (packet : Packet)
      → try_from codec bytes ≡ ok packet
      → packet ≢ pingreq
      → packet ≢ pingresp
      → Turn codec (read bytes) (delivers packet)
  aborted :
      {event : RecvEvent} (effects : List Effect) (e : MqttError)
      → Turn codec event (aborts effects e)

module _ (codec : Codec) where
  answer-Turn :
      (bytes : Bytes) (response : Option Bytes)
      → codec.encode_slice pingresp ≡ response
      → try_from codec bytes ≡ ok pingreq
      → Turn codec (read bytes) (write_or response)
  answer-Turn bytes none e h = aborted _ _
  answer-Turn bytes (some response) e h =
      handled (writes response ∷ []) (answers_ping bytes response h e)

  read-Turn :
      (bytes : Bytes) (r : Result Packet)
      → try_from codec bytes ≡ r
      → Turn codec (read bytes) (on_read codec r)
  read-Turn bytes (err e) h = aborted _ _
  read-Turn bytes (ok pingreq) h = answer-Turn bytes (codec.encode_slice pingresp) refl h
  read-Turn bytes (ok pingresp) h = handled [] (ignores_pong bytes h)
  read-Turn bytes (ok (connect_packet c)) h = delivered bytes _ h (λ e. cc) (λ e. cc)
  read-Turn bytes (ok (connack b c)) h = delivered bytes _ h (λ e. cc) (λ e. cc)
  read-Turn bytes (ok (publish_packet p)) h = delivered bytes _ h (λ e. cc) (λ e. cc)
  read-Turn bytes (ok (puback p)) h = delivered bytes _ h (λ e. cc) (λ e. cc)
  read-Turn bytes (ok (pubrec p)) h = delivered bytes _ h (λ e. cc) (λ e. cc)
  read-Turn bytes (ok (pubrel p)) h = delivered bytes _ h (λ e. cc) (λ e. cc)
  read-Turn bytes (ok (subscribe_packet p ts)) h = delivered bytes _ h (λ e. cc) (λ e. cc)
  read-Turn bytes (ok (suback p cs)) h = delivered bytes _ h (λ e. cc) (λ e. cc)
  read-Turn bytes (ok (other n)) h = delivered bytes _ h (λ e. cc) (λ e. cc)

  tick-Turn :
      (request : Option Bytes)
      → codec.encode_slice pingreq ≡ request
      → Turn codec ping_tick (write_or request)
  tick-Turn none h = aborted _ _
  tick-Turn (some request) h = handled (writes request ∷ []) (asks request h)

  publish-Turn :
      (entry : PublishQueueEntry) (listens : Bool) (bytes : Option Bytes)
      → entry.qospid ≡ at_most_once
      → codec.encode_slice (publish_of entry 0) ≡ bytes
      → Turn codec (to_publish entry listens) (publish_at_once bytes listens)
  publish-Turn entry listens none h e = aborted _ _
  publish-Turn entry true (some bytes) h e =
      handled (writes bytes ∷ responds (ok tt) ∷ []) (publishes entry bytes h e)
  publish-Turn entry false (some bytes) h e = aborted _ _

  least_ne : (pid : ℕ) → at_least_once pid ≢ at_most_once
  least_ne pid e = cc

  exact_ne : (pid : ℕ) → exactly_once pid ≢ at_most_once
  exact_ne pid e = cc

  entry-Turn :
      (entry : PublishQueueEntry) (listens : Bool) (q : QosPid)
      → entry.qospid ≡ q
      → Turn codec (to_publish entry listens) (on_publish codec entry q listens)
  entry-Turn entry listens at_most_once h = publish-Turn entry listens _ h refl
  entry-Turn entry listens (at_least_once pid) h =
      handled (spawns entry ∷ [])
        (starts_job entry listens (λ e. absurd (least_ne pid (sym h ∙ e))))
  entry-Turn entry listens (exactly_once pid) h =
      handled (spawns entry ∷ [])
        (starts_job entry listens (λ e. absurd (exact_ne pid (sym h ∙ e))))

  recv_step-Turn : (event : RecvEvent) → Turn codec event (recv_step codec event)
  unfolding recv_step
  recv_step-Turn (read bytes) = read-Turn bytes _ refl
  recv_step-Turn ping_tick = tick-Turn _ refl
  recv_step-Turn (to_send bytes) = handled (writes bytes ∷ []) (passes_on bytes)
  recv_step-Turn (job_result (ok _)) = handled [] collects
  recv_step-Turn (job_result (err e)) = aborted _ _
  recv_step-Turn (to_publish entry listens) = entry-Turn entry listens entry.qospid refl

  -- What is known when a packet is returned.
  abbrev pub IsDelivery : List RecvEvent → List Effect → Packet → List RecvEvent → Type 0
  IsDelivery events effects packet rest =
      (earlier : List RecvEvent) × (bytes : Bytes) × (before : List Effect) × (events
        ≡ earlier ++ read bytes ∷ rest)
      × (try_from codec bytes ≡ ok packet)
      × (packet ≢ pingreq)
      × (packet ≢ pingresp)
      × HandlesAll codec earlier before
      × (effects ≡ before ++ broadcasts packet ∷ [])

  later-IsDelivery :
      (event : RecvEvent) (events : List RecvEvent) (now effects : List Effect) (packet : Packet)
      (rest : List RecvEvent)
      → Handles codec event now
      → IsDelivery events effects packet rest
      → IsDelivery (event ∷ events) (now ++ effects) packet rest
  later-IsDelivery event events now effects packet rest h
        (earlier, bytes, before, e, t, p, q, all, c) =
      (
        event ∷ earlier,
        bytes,
        now ++ before,
        ap (◌∷◌ event) e,
        t,
        p,
        q,
        then h all,
        ap (λ x. now ++ x) c ∙ sym (append_assoc now before (broadcasts packet ∷ [])),
      )

  after-IsDelivery :
      (event : RecvEvent) (step : RecvStep) (events : List RecvEvent) (run : Receiving)
      (packet : Packet) (rest : List RecvEvent)
      → Turn codec event step
      → (run.end ≡ returned packet rest → IsDelivery events run.effects packet rest)
      → (after step events run).end ≡ returned packet rest
      → IsDelivery (event ∷ events) (after step events run).effects packet rest
  after-IsDelivery event _ events run packet rest (handled effects h) k e =
      later-IsDelivery event events effects run.effects packet rest h (k e)
  after-IsDelivery _ _ events run packet rest (delivered bytes p t h h') k e =
      let same : p ≡ packet = cc in
      let rests : events ≡ rest = cc in
      (
        [],
        bytes,
        [],
        ap (λ r. read bytes ∷ r) rests,
        rw same at t,
        rw same at h,
        rw same at h',
        none_left,
        ap (λ r. broadcasts r ∷ []) same,
      )
  after-IsDelivery event _ events run packet rest (aborted effects error) k e = cc

  -- When the session's loop returns a packet, it is the decoding of the last bytes that were
  -- read, and not of the keep-alive. Every earlier event was handled as the relation says: a
  -- request of the keep-alive answered, an answer ignored, a tick turned into a request, queued
  -- bytes written, a packet without acknowledgement written and its sender told of the success,
  -- any other given to a job. What was done is all of that in order, and then that packet is
  -- broadcast.
  pub recv-IsDelivery :
      (events : List RecvEvent) (packet : Packet) (rest : List RecvEvent)
      → (recv codec events).end ≡ returned packet rest
      → IsDelivery events (recv codec events).effects packet rest
  unfolding recv
  recv-IsDelivery [] packet rest h = cc
  recv-IsDelivery (event ∷ events) packet rest h =
      after-IsDelivery event (recv_step codec event) events (recv codec events) packet rest
        (recv_step-Turn event) (recv-IsDelivery events packet rest) h
