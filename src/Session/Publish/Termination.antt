-- ===== src/Session/Publish/Termination.antt =====
-- The publishing job of `Session::recv` ends in time.
use intouch2_mqtt.Base.{
  ℕ, zero, suc, ◌+◌, ◌≤◌, ◌<◌, ◌≡◌, ◌≢◌, refl, ap, Bool, true, false, Option, none, some, List, [],
  ◌∷◌, arith, leb, leb→le, ◌==◌, ==_ne, if◌then◌else◌,
}
use intouch2_mqtt.Outcome.{returns, ◌>>=◌}
use intouch2_mqtt.Session.Packet.{
  QosPid, at_most_once, at_least_once, exactly_once, Packet, puback, pubrec, pubrel, Codec,
  encoding, publish_timeout, Result, ok, err, publish_packet, connect_packet, connack,
  subscribe_packet, suback, pingreq, pingresp, other,
}
use intouch2_mqtt.Session.Publish.{
  PublishQueueEntry, Event, real_timeout, attempt_timeout, received, recv_failed, Status, waits,
  responds, fails, Run, stop, send_or, publish_of, next_attempt, attempt_at, attempt_duration,
  on_packet, wait, attempts, publish_job,
}
use intouch2_mqtt.Session.Publish.Ends.{Carries, by_at_least_once, by_exactly_once}

-- The job is over: its own time, or that of more attempts than it may repeat.
abbrev pub is_over : ℕ → List Event → Bool
is_over retries [] = false
is_over retries (real_timeout ∷ events) = true
is_over zero (attempt_timeout ∷ events) = true
is_over (suc retries) (attempt_timeout ∷ events) = is_over retries events
is_over retries (_ ∷ events) = is_over retries events

module _ (codec : Codec) (entry : PublishQueueEntry) (retries : ℕ) where
  -- A run that has ended.
  HasEnded : Run → Type 0
  HasEnded run = run.status ≢ waits

  stop-HasEnded : (s : Status) → s ≢ waits → HasEnded (stop s)
  unfolding HasEnded
  stop-HasEnded s h = h

  response-HasEnded : (r : Result (Unit {0})) → HasEnded (stop (responds r))
  response-HasEnded r = stop-HasEnded (responds r) (λ e. cc)

  send_or-HasEnded :
      (bytes : Option (List ℕ)) (p : Packet) (run failed : Run)
      → HasEnded run
      → HasEnded failed
      → HasEnded (send_or bytes p run failed)
  unfolding HasEnded
  send_or-HasEnded (some bytes) p run failed h k = h
  send_or-HasEnded none p run failed h k = k

  attempt_at-HasEnded :
      (attempt : ℕ) (run : Run)
      → (attempt ≤ retries → HasEnded run)
      → HasEnded (attempt_at codec entry retries attempt run)
  attempt_at-HasEnded attempt run h = branch (leb attempt retries) (leb→le attempt retries)
    where
      branch :
          (b : Bool)
          → (b ≡ true → attempt ≤ retries)
          → HasEnded (
              if b
              then send_or
                  (codec.encode_slice (publish_of entry attempt))
                  (publish_of entry attempt)
                  run
                  (stop (responds (err encoding)))
              else stop (responds (err publish_timeout)))
      branch true l = send_or-HasEnded _ _ _ _ (h (l refl)) (response-HasEnded _)
      branch false l = response-HasEnded _

  on_packet-HasEnded :
      (pid : ℕ) (packet : Packet) (run : Run)
      → HasEnded run
      → HasEnded (on_packet codec entry retries pid packet run)
  on_packet-HasEnded pid (puback ack_pid) run h = answered (ack_pid == pid)
    where
      answered : (b : Bool) → HasEnded (if b then stop (responds (ok tt)) else run)
      answered true = response-HasEnded (ok tt)
      answered false = h
  on_packet-HasEnded pid (pubrec ack_pid) run h = answered (ack_pid == pid)
    where
      answered :
          (b : Bool)
          → HasEnded (
              if b
              then send_or
                  (codec.encode_slice (pubrel ack_pid))
                  (pubrel ack_pid)
                  (stop (responds (ok tt)))
                  (stop (fails encoding))
              else run)
      answered true =
          send_or-HasEnded (codec.encode_slice (pubrel ack_pid)) (pubrel ack_pid) _ _
            (response-HasEnded (ok tt)) (stop-HasEnded (fails encoding) (λ e. cc))
      answered false = h
  on_packet-HasEnded pid (connect_packet c) run h = h
  on_packet-HasEnded pid (connack b c) run h = h
  on_packet-HasEnded pid (publish_packet p) run h = h
  on_packet-HasEnded pid (pubrel p) run h = h
  on_packet-HasEnded pid (subscribe_packet p ts) run h = h
  on_packet-HasEnded pid (suback p cs) run h = h
  on_packet-HasEnded pid pingreq run h = h
  on_packet-HasEnded pid pingresp run h = h
  on_packet-HasEnded pid (other n) run h = h

  next_attempt-HasEnded :
      (qospid : QosPid) (run : Run) → HasEnded run → HasEnded (next_attempt qospid run)
  next_attempt-HasEnded at_most_once run h = response-HasEnded _
  next_attempt-HasEnded (at_least_once p) run h = h
  next_attempt-HasEnded (exactly_once p) run h = response-HasEnded _

  wait-HasEnded :
      (pid attempt left : ℕ) (events : List Event)
      → retries ≤ attempt + left
      → is_over left events ≡ true
      → HasEnded (wait codec entry retries pid attempt events)
  unfolding wait
  wait-HasEnded pid attempt left [] l h = cc
  wait-HasEnded pid attempt left (real_timeout ∷ events) l h = response-HasEnded _
  wait-HasEnded pid attempt left (recv_failed ∷ events) l h = response-HasEnded _
  wait-HasEnded pid attempt zero (attempt_timeout ∷ events) l h =
      next_attempt-HasEnded entry.qospid _
        (attempt_at-HasEnded (attempt + 1) _ (λ k. absurd (omega arith)))
  wait-HasEnded pid attempt (suc left) (attempt_timeout ∷ events) l h =
      next_attempt-HasEnded entry.qospid _ (
        attempt_at-HasEnded (attempt + 1) _
          (λ k. wait-HasEnded pid (attempt + 1) left events (omega arith) h))
  wait-HasEnded pid attempt zero (received packet ∷ events) l h =
      on_packet-HasEnded pid packet _ (wait-HasEnded pid attempt zero events l h)
  wait-HasEnded pid attempt (suc left) (received packet ∷ events) l h =
      on_packet-HasEnded pid packet _ (wait-HasEnded pid attempt (suc left) events l h)

  attempt_duration_lem :
      (pid : ℕ) (qospid : QosPid)
      → Carries qospid pid
      → 0 < retries
      → attempt_duration qospid retries ≡ returns tt
  attempt_duration_lem _ _ (by_at_least_once pid) l = rw (==_ne retries 0 (λ e. omega arith)) refl
  attempt_duration_lem _ _ (by_exactly_once pid) l = refl

  attempts-HasEnded :
      (pid : ℕ) (qospid : QosPid) (events : List Event)
      → Carries qospid pid
      → is_over retries events ≡ true
      → HasEnded (attempts codec entry retries qospid events)
  attempts-HasEnded _ _ events (by_at_least_once pid) h =
      attempt_at-HasEnded 0 _ (λ k. wait-HasEnded pid 0 retries events (omega arith) h)
  attempts-HasEnded _ _ events (by_exactly_once pid) h =
      attempt_at-HasEnded 0 _ (λ k. wait-HasEnded pid 0 retries events (omega arith) h)

  -- With at least one retry and a packet id, a publishing job has ended, without a panic, once
  -- its own time is over or one more attempt has timed out than it may repeat.
  pub publish_job-ends :
      (pid : ℕ) (events : List Event)
      → Carries entry.qospid pid
      → 0 < retries
      → is_over retries events ≡ true
      → (run : Run) × (publish_job codec entry retries events ≡ returns run) × (run.status ≢ waits)
  unfolding publish_job HasEnded
  publish_job-ends pid events c l h = (
    attempts codec entry retries entry.qospid events,
    ap (λ o. o >>= λ _. returns (attempts codec entry retries entry.qospid events))
        (attempt_duration_lem pid entry.qospid c l),
    attempts-HasEnded pid entry.qospid events c h,
  )
