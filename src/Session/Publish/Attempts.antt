-- ===== src/Session/Publish/Attempts.antt =====
-- What the publishing job of `Session::recv` sends.
use intouch2_mqtt.Base.{
  ℕ, zero, suc, ◌+◌, ◌≤◌, ◌≡◌, refl, ap, Bool, true, false, Option, none, some, List, [], ◌∷◌, ◌++◌,
  arith, leb, leb→le, ◌==◌, ==_iff, map, if◌then◌else◌, subst,
}
use intouch2_mqtt.Outcome.{returns}
use intouch2_mqtt.Session.Packet.{
  QosPid, at_most_once, at_least_once, exactly_once, Packet, puback, pubrec, pubrel, Codec,
  encoding, publish_timeout, ok, err, publish_packet, connect_packet, connack, subscribe_packet,
  suback, pingreq, pingresp, other,
}
use intouch2_mqtt.Session.Publish.{
  PublishQueueEntry, Event, real_timeout, attempt_timeout, received, recv_failed, responds, fails,
  Run, stop, send_or, publish_of, next_attempt, attempt_at, on_packet, wait, attempts, publish_job,
}
use intouch2_mqtt.Session.Publish.Ends.{
  publish_job-attempts, Carries, by_at_least_once, by_exactly_once,
}

-- The numbers of the attempts from one on.
abbrev pub from : ℕ → ℕ → List ℕ
from attempt zero = []
from attempt (suc n) = attempt ∷ from (attempt + 1) n

-- The end of a run: nothing more, or the answer to the Pubrec of an id.
pub data Closing (pid : ℕ) : List Packet → Type 0 where
  nothing : Closing pid []
  released : Closing pid (pubrel pid ∷ [])

module _ (codec : Codec) (entry : PublishQueueEntry) (retries : ℕ) where
  -- What is sent from an attempt on: attempts in order, then the closing, with none beyond the last.
  unfoldable pub Sends : ℕ → ℕ → List Packet → Type 0
  Sends pid attempt sent =
      (n : ℕ) × (closing : List Packet) × (sent
        ≡ map (publish_of entry) (from attempt n) ++ closing)
      × Closing pid closing
      × (attempt + n ≤ retries + 1)

  Sends-nothing : (pid attempt : ℕ) → attempt ≤ retries + 1 → Sends pid attempt []
  unfolding Sends
  Sends-nothing pid attempt h = (0, [], refl, nothing, omega arith)

  Sends-release :
      (pid ack_pid attempt : ℕ)
      → ack_pid ≡ pid
      → attempt ≤ retries + 1
      → Sends pid attempt (pubrel ack_pid ∷ [])
  unfolding Sends
  Sends-release pid ack_pid attempt e h = (
    0,
    pubrel ack_pid ∷ [],
    refl,
    subst (λ p. Closing p (pubrel ack_pid ∷ [])) e released,
    omega arith,
  )

  Sends-attempt :
      (pid attempt : ℕ) (sent : List Packet)
      → Sends pid (attempt + 1) sent
      → Sends pid attempt (publish_of entry attempt ∷ sent)
  unfolding Sends
  Sends-attempt pid attempt sent (n, closing, e, c, h) =
      (suc n, closing, ap (◌∷◌ (publish_of entry attempt)) e, c, omega arith)

  attempt_at-Sends :
      (pid attempt : ℕ) (run : Run)
      → attempt ≤ retries + 1
      → (attempt ≤ retries → Sends pid (attempt + 1) run.sent)
      → Sends pid attempt (attempt_at codec entry retries attempt run).sent
  attempt_at-Sends pid attempt run h k = elim_leb (leb attempt retries) (leb→le attempt retries)
    where
      send :
          (bytes : Option (List ℕ))
          → attempt ≤ retries
          → Sends pid attempt
              (send_or bytes (publish_of entry attempt) run (stop (responds (err encoding)))).sent
      send (some bytes) l = Sends-attempt pid attempt run.sent (k l)
      send none l = Sends-nothing pid attempt h

      elim_leb :
          (b : Bool)
          → (b ≡ true → attempt ≤ retries)
          → Sends pid attempt
              (if b
                then send_or
                    (codec.encode_slice (publish_of entry attempt))
                    (publish_of entry attempt)
                    run
                    (stop (responds (err encoding)))
                else stop (responds (err publish_timeout))).sent
      elim_leb true l = send (codec.encode_slice (publish_of entry attempt)) (l refl)
      elim_leb false l = Sends-nothing pid attempt h

  release-Sends :
      (pid ack_pid attempt : ℕ) (bytes : Option (List ℕ))
      → ack_pid ≡ pid
      → attempt ≤ retries + 1
      → Sends pid attempt
          (send_or bytes (pubrel ack_pid) (stop (responds (ok tt))) (stop (fails encoding))).sent
  release-Sends pid ack_pid attempt (some bytes) e h = Sends-release pid ack_pid attempt e h
  release-Sends pid ack_pid attempt none e h = Sends-nothing pid attempt h

  on_packet-Sends :
      (pid attempt : ℕ) (packet : Packet) (run : Run)
      → attempt ≤ retries + 1
      → Sends pid attempt run.sent
      → Sends pid attempt (on_packet codec entry retries pid packet run).sent
  on_packet-Sends pid attempt (puback ack_pid) run l h = answered (ack_pid == pid)
    where
      answered : (b : Bool) → Sends pid attempt (if b then stop (responds (ok tt)) else run).sent
      answered true = Sends-nothing pid attempt l
      answered false = h
  on_packet-Sends pid attempt (pubrec ack_pid) run l h =
      answered (ack_pid == pid) (λ e. (==_iff ack_pid pid).0 e)
    where
      answered :
          (b : Bool)
          → (b ≡ true → ack_pid ≡ pid)
          → Sends pid attempt
              (if b
                then send_or
                    (codec.encode_slice (pubrel ack_pid))
                    (pubrel ack_pid)
                    (stop (responds (ok tt)))
                    (stop (fails encoding))
                else run).sent
      answered true e =
          release-Sends pid ack_pid attempt (codec.encode_slice (pubrel ack_pid)) (e refl) l
      answered false e = h
  on_packet-Sends pid attempt (connect_packet c) run l h = h
  on_packet-Sends pid attempt (connack b c) run l h = h
  on_packet-Sends pid attempt (publish_packet p) run l h = h
  on_packet-Sends pid attempt (pubrel p) run l h = h
  on_packet-Sends pid attempt (subscribe_packet p ts) run l h = h
  on_packet-Sends pid attempt (suback p cs) run l h = h
  on_packet-Sends pid attempt pingreq run l h = h
  on_packet-Sends pid attempt pingresp run l h = h
  on_packet-Sends pid attempt (other n) run l h = h

  next_attempt-Sends :
      (pid attempt : ℕ) (qospid : QosPid) (run : Run)
      → attempt ≤ retries + 1
      → Sends pid attempt run.sent
      → Sends pid attempt (next_attempt qospid run).sent
  next_attempt-Sends pid attempt at_most_once run l h = Sends-nothing pid attempt l
  next_attempt-Sends pid attempt (at_least_once p) run l h = h
  next_attempt-Sends pid attempt (exactly_once p) run l h = Sends-nothing pid attempt l

  wait-Sends :
      (pid attempt : ℕ) (events : List Event)
      → attempt ≤ retries
      → Sends pid (attempt + 1) (wait codec entry retries pid attempt events).sent
  unfolding wait
  wait-Sends pid attempt [] l = Sends-nothing pid _ (omega arith)
  wait-Sends pid attempt (real_timeout ∷ events) l = Sends-nothing pid _ (omega arith)
  wait-Sends pid attempt (recv_failed ∷ events) l = Sends-nothing pid _ (omega arith)
  wait-Sends pid attempt (attempt_timeout ∷ events) l =
      next_attempt-Sends pid (attempt + 1) entry.qospid _ (omega arith) (
        attempt_at-Sends pid (attempt + 1) _ (omega arith)
          (λ k. wait-Sends pid (attempt + 1) events k))
  wait-Sends pid attempt (received packet ∷ events) l =
      on_packet-Sends pid (attempt + 1) packet _ (omega arith) (wait-Sends pid attempt events l)

  attempts-Sends :
      (pid : ℕ) (qospid : QosPid) (events : List Event)
      → Carries qospid pid
      → Sends pid 0 (attempts codec entry retries qospid events).sent
  attempts-Sends _ _ events (by_at_least_once pid) =
      attempt_at-Sends pid 0 _ (omega arith) (λ k. wait-Sends pid 0 events k)
  attempts-Sends _ _ events (by_exactly_once pid) =
      attempt_at-Sends pid 0 _ (omega arith) (λ k. wait-Sends pid 0 events k)

  -- A publishing job with a packet id that does not panic sends the attempts in their order, at
  -- most one more than the retries, followed by at most a Pubrel with that id.
  pub publish_job-sent :
      (pid : ℕ) (events : List Event) (run : Run)
      → Carries entry.qospid pid
      → publish_job codec entry retries events ≡ returns run
      → (n : ℕ) × (closing : List Packet) × (run.sent
          ≡ map (publish_of entry) (from 0 n) ++ closing)
        × Closing pid closing
        × (n ≤ retries + 1)
  unfolding Sends
  publish_job-sent pid events run c h =
      let (n, closing, e, k, l) =
        subst (λ r. Sends pid 0 r.sent) (publish_job-attempts codec entry retries events run h)
          (attempts-Sends pid entry.qospid events c) in
      (n, closing, e, k, omega arith)
