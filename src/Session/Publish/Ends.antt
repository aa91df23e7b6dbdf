-- ===== src/Session/Publish/Ends.antt =====
-- How the publishing job of `Session::recv` ends: on its own acknowledgement only, and in time.
use intouch2_mqtt.Base.{
  ℕ, ◌+◌, ◌≡◌, ◌≢◌, refl, ap, Bool, true, false, Option, none, some, List, [], ◌∷◌, ◌++◌, ◌⊎◌, inl,
  inr, leb, ◌==◌, ==_iff, if◌then◌else◌, subst,
}
use intouch2_mqtt.Outcome.{Outcome, returns, panics, ◌>>=◌, eq_of_returns}
use intouch2_mqtt.Session.Packet.{
  QosPid, at_most_once, at_least_once, exactly_once, Packet, puback, pubrec, pubrel, Codec,
  encoding, publish_timeout, MqttError, ok, err, publish_packet, connect_packet, connack,
  subscribe_packet, suback, pingreq, pingresp, other,
}
use intouch2_mqtt.Session.Publish.{
  PublishQueueEntry, Event, real_timeout, attempt_timeout, received, recv_failed, Status, responds,
  fails, Run, stop, send_or, publish_of, next_attempt, attempt_at, attempt_duration, on_packet,
  wait, attempts, publish_job,
}

-- The packet id of a quality of service with an acknowledgement.
pub data Carries : QosPid → ℕ → Type 0 where
  by_at_least_once : (pid : ℕ) → Carries (at_least_once pid) pid
  by_exactly_once : (pid : ℕ) → Carries (exactly_once pid) pid

-- An acknowledgement of the id was broadcast to the job; a Pubrec was then answered, last.
abbrev pub IsAcknowledged : ℕ → List Event → List Packet → Type 0
IsAcknowledged pid events sent =
    (earlier later : List Event) × ((events ≡ earlier ++ received (puback pid) ∷ later)
      ⊎ ((events ≡ earlier ++ received (pubrec pid) ∷ later)
          × (before : List Packet) × (sent ≡ before ++ pubrel pid ∷ [])))

later-IsAcknowledged :
    (pid : ℕ) (e : Event) (events : List Event) (sent : List Packet)
    → IsAcknowledged pid events sent
    → IsAcknowledged pid (e ∷ events) sent
later-IsAcknowledged pid e events sent (earlier, later, inl h) =
    (e ∷ earlier, later, inl (ap (◌∷◌ e) h))
later-IsAcknowledged pid e events sent (earlier, later, inr (h, before, k)) =
    (e ∷ earlier, later, inr (ap (◌∷◌ e) h, before, k))

sent-IsAcknowledged :
    (pid : ℕ) (p : Packet) (events : List Event) (sent : List Packet)
    → IsAcknowledged pid events sent
    → IsAcknowledged pid events (p ∷ sent)
sent-IsAcknowledged pid p events sent (earlier, later, inl h) = (earlier, later, inl h)
sent-IsAcknowledged pid p events sent (earlier, later, inr (h, before, k)) =
    (earlier, later, inr (h, p ∷ before, ap (◌∷◌ p) k))

-- A run that ends well, if it does, ends with an acknowledgement.
IsSound : ℕ → List Event → Run → Type 0
IsSound pid events run = run.status ≡ responds (ok tt) → IsAcknowledged pid events run.sent

refusal : (e : MqttError) → responds (err e) ≢ responds (ok tt)
refusal e h = cc

stop-IsSound :
    (pid : ℕ) (events : List Event) (s : Status)
    → s ≢ responds (ok tt)
    → IsSound pid events (stop s)
unfolding IsSound
stop-IsSound pid events s h k = absurd (h k)

send_or-IsSound :
    (pid : ℕ) (events : List Event) (bytes : Option (List ℕ)) (p : Packet) (run failed : Run)
    → IsSound pid events run
    → IsSound pid events failed
    → IsSound pid events (send_or bytes p run failed)
unfolding IsSound
send_or-IsSound pid events (some bytes) p run failed h k e =
    sent-IsAcknowledged pid p events run.sent (h e)
send_or-IsSound pid events none p run failed h k e = k e

if-IsSound :
    (pid : ℕ) (events : List Event) (b : Bool) (x y : Run)
    → (b ≡ true → IsSound pid events x)
    → IsSound pid events y
    → IsSound pid events (if b then x else y)
if-IsSound pid events true x y h k = h refl
if-IsSound pid events false x y h k = k

pub then-returns {ℓ} :
    {A : Type ℓ} (o : Outcome (Unit {0})) (run run' : A)
    → (o >>= λ _. returns run) ≡ returns run'
    → run ≡ run'
then-returns (returns _) run run' h = eq_of_returns h
then-returns panics run run' h = cc

module _ (codec : Codec) (entry : PublishQueueEntry) (retries : ℕ) where
  attempt_at-IsSound :
      (pid attempt : ℕ) (events : List Event) (run : Run)
      → IsSound pid events run
      → IsSound pid events (attempt_at codec entry retries attempt run)
  attempt_at-IsSound pid attempt events run h =
      let p : Packet = publish_of entry attempt in
      let bytes : Option (List ℕ) = codec.encode_slice p in
      let failed : Run = stop (responds (err encoding)) in
      let late : Run = stop (responds (err publish_timeout)) in
      if-IsSound pid events (leb attempt retries) (send_or bytes p run failed) late
        (λ _.
          send_or-IsSound pid events bytes p run failed h
            (stop-IsSound pid events _ (refusal encoding)))
        (stop-IsSound pid events _ (refusal publish_timeout))

  acknowledged-IsSound :
      (pid ack_pid : ℕ) (events : List Event) (bytes : Option (List ℕ))
      → ack_pid ≡ pid
      → IsSound pid
          (received (pubrec ack_pid) ∷ events)
          (send_or bytes (pubrel ack_pid) (stop (responds (ok tt))) (stop (fails encoding)))
  unfolding IsSound
  acknowledged-IsSound pid ack_pid events (some bytes) e h =
      subst (λ p. IsAcknowledged p (received (pubrec ack_pid) ∷ events) (pubrel ack_pid ∷ [])) e
        ([], events, inr (refl, [], refl))
  acknowledged-IsSound pid ack_pid events none e h = cc

  on_packet-IsSound :
      (pid : ℕ) (packet : Packet) (events : List Event) (run : Run)
      → IsSound pid (received packet ∷ events) run
      → IsSound pid (received packet ∷ events) (on_packet codec entry retries pid packet run)
  unfolding IsSound
  on_packet-IsSound pid (puback ack_pid) events run h =
      if-IsSound pid _ (ack_pid == pid) _ _
        (λ e k.
          subst (λ p. IsAcknowledged p (received (puback ack_pid) ∷ events) [])
            ((==_iff ack_pid pid).0 e) ([], events, inl refl))
        h
  on_packet-IsSound pid (pubrec ack_pid) events run h =
      if-IsSound pid _ (ack_pid == pid) _ _
        (λ e. acknowledged-IsSound pid ack_pid events _ ((==_iff ack_pid pid).0 e)) h
  on_packet-IsSound pid (connect_packet c) events run h = h
  on_packet-IsSound pid (connack b c) events run h = h
  on_packet-IsSound pid (publish_packet p) events run h = h
  on_packet-IsSound pid (pubrel p) events run h = h
  on_packet-IsSound pid (subscribe_packet p ts) events run h = h
  on_packet-IsSound pid (suback p cs) events run h = h
  on_packet-IsSound pid pingreq events run h = h
  on_packet-IsSound pid pingresp events run h = h
  on_packet-IsSound pid (other n) events run h = h

  next_attempt-IsSound :
      (pid : ℕ) (events : List Event) (qospid : QosPid) (run : Run)
      → IsSound pid events run
      → IsSound pid events (next_attempt qospid run)
  next_attempt-IsSound pid events at_most_once run h = stop-IsSound pid events _ (refusal _)
  next_attempt-IsSound pid events (at_least_once p) run h = h
  next_attempt-IsSound pid events (exactly_once p) run h = stop-IsSound pid events _ (refusal _)

  wait-IsSound :
      (pid attempt : ℕ) (events : List Event)
      → IsSound pid events (wait codec entry retries pid attempt events)
  unfolding wait IsSound
  wait-IsSound pid attempt [] = stop-IsSound pid [] _ (λ e. cc)
  wait-IsSound pid attempt (real_timeout ∷ events) = stop-IsSound pid _ _ (refusal _)
  wait-IsSound pid attempt (recv_failed ∷ events) = stop-IsSound pid _ _ (refusal _)
  wait-IsSound pid attempt (attempt_timeout ∷ events) = next_attempt-IsSound pid _ entry.qospid _ (
      attempt_at-IsSound pid (attempt + 1) _ _
        (λ e. later-IsAcknowledged pid _ events _ (wait-IsSound pid (attempt + 1) events e)))
  wait-IsSound pid attempt (received packet ∷ events) =
      on_packet-IsSound pid packet events _
        (λ e. later-IsAcknowledged pid _ events _ (wait-IsSound pid attempt events e))

  attempts-IsAcknowledged :
      (qospid : QosPid) (events : List Event)
      → (attempts codec entry retries qospid events).status ≡ responds (ok tt)
      → (pid : ℕ) × Carries qospid pid
        × IsAcknowledged pid events (attempts codec entry retries qospid events).sent
  unfolding IsSound
  attempts-IsAcknowledged at_most_once events h = cc
  attempts-IsAcknowledged (at_least_once pid) events h =
      (pid, by_at_least_once pid, attempt_at-IsSound pid 0 events _ (wait-IsSound pid 0 events) h)
  attempts-IsAcknowledged (exactly_once pid) events h =
      (pid, by_exactly_once pid, attempt_at-IsSound pid 0 events _ (wait-IsSound pid 0 events) h)

  -- Where the job does not panic, it makes its attempts.
  pub publish_job-attempts :
      (events : List Event) (run : Run)
      → publish_job codec entry retries events ≡ returns run
      → attempts codec entry retries entry.qospid events ≡ run
  unfolding publish_job
  publish_job-attempts events run h = then-returns (attempt_duration entry.qospid retries) _ run h

  -- A publishing job that does not panic and responds with success has the packet id of an
  -- acknowledged quality of service, and a Puback or a Pubrec with that id was broadcast to it;
  -- where it was a Pubrec, the last packet that the job sent is the Pubrel with that id.
  pub publish_job-IsAcknowledged :
      (events : List Event) (run : Run)
      → publish_job codec entry retries events ≡ returns run
      → run.status ≡ responds (ok tt)
      → (pid : ℕ) × Carries entry.qospid pid × IsAcknowledged pid events run.sent
  publish_job-IsAcknowledged events run h k =
      subst
        (λ r.
          r.status ≡ responds (ok tt)
          → (pid : ℕ) × Carries entry.qospid pid × IsAcknowledged pid events r.sent)
        (publish_job-attempts events run h) (attempts-IsAcknowledged entry.qospid events) k
