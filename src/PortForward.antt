-- ===== src/PortForward.antt =====
-- The forwarder between the spa and its clients: intouch2-mqtt/src/port_forward.rs. The workers of
-- `run` give it one event after the other; what it sends is a list of effects.
pub mod Hello
pub mod Routing
pub mod Valid
pub mod Run
mod Examples
use intouch2_mqtt.Base.{
  ℕ, zero, suc, ◌+◌, ◌-◌, ◌≡◌, ◌≢◌, Bool, true, false, Option, none, some, List, [], ◌∷◌, ◌++◌,
  Bytes, codes, beq, leb, ltb, ◌==◌, ◌&&◌, if◌then◌else◌, min,
}
use intouch2_mqtt.Outcome.{Outcome, returns, panics, ◌>>=◌, expect}
use intouch2_mqtt.Nom.{Nom}
use intouch2_mqtt.Object.{Kind, NetworkPackageData, set_status, push_status}
use intouch2_mqtt.Framing.{
  NetworkPackage, addressed, hello, ParseResult, parsed, parser_error, tailing_data, panicked,
  diverged, compose_network_data, parse_network_data,
}
use intouch2_mqtt.Assoc.{find}
use intouch2_mqtt.ForwardMap.{
  Info, ForwardMapping, update, insert, clear_timeouts, cell_at, upgrade, len,
}

-- `SpaHello::try_from`: the id and the name, or `InvalidSpaName`.
abbrev pub before_bar : ℕ → Option (Bytes × Bytes) → Option (Bytes × Bytes)
before_bar x none = none
before_bar x (some (id, name)) = some (x ∷ id, name)

unfoldable pub spa_hello_of : Bytes → Option (Bytes × Bytes)
spa_hello_of [] = none
spa_hello_of (x ∷ buf) =
    let rest = spa_hello_of buf in if x == 124 then some ([], buf) else before_bar x rest

-- What `timeout_at(sock_spa.recv())` gives while `build` waits for the spa's name.
pub data ProbeEvent : Type 0 where
  datagram : Bytes → ProbeEvent
  timed_out : ProbeEvent

-- The loop of `build`: the name, or `SpaTimeout`, with the number of hellos sent.
pub data Probe : Type 0 where
  found : Bytes → ℕ → Probe
  spa_timeout : ℕ → Probe
  waiting : ℕ → Probe

-- How `build` reads a datagram: a name, or a package to ignore.
abbrev pub probe_answer : ParseResult → Outcome (Option Bytes)
probe_answer (parsed (hello name)) = returns (some name)
probe_answer (parsed (addressed _ _ _)) = returns none
probe_answer parser_error = returns none
probe_answer (tailing_data _ _) = returns none
probe_answer panicked = panics
probe_answer diverged = panics

-- `tries` is the counter behind `tries -= 1`; `sent` counts the hellos.
unfoldable pub probe : Nom → ℕ → ℕ → List ProbeEvent → Outcome Probe
probe n tries sent [] = returns (waiting sent)
probe n tries sent (timed_out ∷ events) =
    let again = probe n (tries - 1) (sent + 1) events in
    if tries == 0 then returns (spa_timeout sent) else again
probe n tries sent (datagram bytes ∷ events) =
    probe_answer (parse_network_data n bytes) >>= λ answer. elim answer [
      | some name ↦ returns (found name sent)
      | none ↦ probe n tries sent events
    ]

-- `let mut tries: u8 = 5`, and the first send.
abbrev pub find_spa : Nom → List ProbeEvent → Outcome Probe
find_spa n events = probe n 4 1 events

pub data ForwardAddr (A : Type 0) : Type 0 where
  pipe : ForwardAddr A
  socket : A → ForwardAddr A

pub data Player (A : Type 0) : Type 0 where
  local : Player A
  client : A → Player A

pub data DataSource (A : Type 0) : Type 0 where
  to from : Player A → DataSource A

-- What `run` sends: to the spa's socket, to a client's, into the internal pipe and into the dump.
pub data Effect (A : Type 0) : Type 0 where
  send_spa : Bytes → Effect A
  send_client : Bytes → A → Effect A
  send_pipe : NetworkPackage → Effect A
  send_dump : DataSource A → NetworkPackageData → Effect A
  sleep_until sleep : ℕ → Effect A

pub record PortForward (A : Type 0) : Type 0 where
  pub forwards : ForwardMapping Bytes (ForwardAddr A) (Unit {0})
  -- `self.spa_hello`, and the id of the local `spa_hello`.
  pub name : Bytes
  pub id : Bytes
  pub hello_response : Bytes
  pub has_clients : Bool
  pub has_pipe : Bool
  pub has_dump : Bool
  pub verbose : Bool
  pub handshake_timeout : ℕ
  pub udp_timeout : ℕ

-- The state with its effects, or the end of `run` with `InvalidSpaName`.
pub data Turn (A : Type 0) : Type 0 where
  goes_on : PortForward A → List (Effect A) → Turn A
  invalid_spa_name : Bytes → Turn A

-- `did_forward` and `got_reply` of a cell
abbrev pub did_forward :
    {I A T : Type 0} → ℕ → ℕ → ForwardMapping I A T → Outcome (ForwardMapping I A T)
did_forward now p m = expect (m.cells p) >>= λ info.
    returns record m { cells = update m.cells p (some record info { last_forward = now }) }

abbrev pub got_reply :
    {I A T : Type 0} → ℕ → ℕ → Info I A T → ForwardMapping I A T → ForwardMapping I A T
got_reply now p info m = record m {
  cells = update m.cells p (some record info { last_reply = some now });
}

abbrev pub when : {A : Type 0} → Bool → A → List A
when true x = x ∷ []
when false x = []

abbrev pub is_kind_set_status : NetworkPackageData → Bool
is_kind_set_status (set_status, _) = true
is_kind_set_status _ = false

abbrev pub is_kind_push_status : NetworkPackageData → Bool
is_kind_push_status (push_status, _) = true
is_kind_push_status _ = false

-- The beginning of `run`.
abbrev pub start_hello : Bytes → Option (Bytes × Bytes)
start_hello spa_hello = elim (spa_hello_of spa_hello) [
  | none ↦ none
  | some (id, name) ↦ some (id, compose_network_data (hello id))
]

module _ {A : Type 0} (id_eq : Discrete Bytes) (addr_eq : Discrete (ForwardAddr A)) where
  -- `SocketData::FromPipe`
  unfoldable pub from_pipe : ℕ → PortForward A → NetworkPackage → Outcome (Turn A)
  from_pipe now f (addressed (some src) dst content) = returns (
      goes_on f (
        when f.has_dump (send_dump (from local) content)
        ++ (send_spa (compose_network_data (addressed (some src) dst content)) ∷ [])))
  from_pipe now f (addressed none dst content) = returns (goes_on f [])
  from_pipe now f (hello id) = insert id_eq addr_eq now f.forwards pipe id tt >>= λ r.
      if f.has_pipe
      then returns (goes_on (record f { forwards = r.0 }) (send_pipe (hello f.name) ∷ []))
      else panics

  -- `verbose && count_before != self.forwards.len()`, which only chooses what is logged.
  unfoldable pub count_after :
      Bool → ForwardMapping Bytes (ForwardAddr A) (Unit {0}) → Outcome (Unit {0})
  count_after false forwards = returns tt
  count_after true forwards = len id_eq addr_eq forwards >>= λ count. returns tt

  -- A client's package for the spa.
  unfoldable pub forward_client :
      ℕ → PortForward A → A → Bytes → Bytes → Bytes → NetworkPackageData → Outcome (Turn A)
  forward_client now f source_addr bytes src dst content =
      len id_eq addr_eq f.forwards >>= λ count_before.
      insert id_eq addr_eq now f.forwards (socket source_addr) src tt >>= λ r. expect r.1 >>= λ p.
      did_forward now p r.0 >>= λ forwards. count_after f.verbose forwards >>= λ _. returns (
        goes_on (record f { forwards = forwards })
          (when f.has_dump (send_dump (from (client source_addr)) content)
            ++ (send_spa bytes
                ∷ when (f.has_pipe && is_kind_set_status content)
                    (send_pipe (addressed (some src) (some dst) content)))))

  -- `SocketData::FromClient`, behind `parse_network_data`
  unfoldable pub from_client : ℕ → PortForward A → A → Bytes → ParseResult → Outcome (Turn A)
  from_client now f source_addr bytes (parsed (addressed (some src) (some dst) content)) =
      if beq dst f.id
      then forward_client now f source_addr bytes src dst content
      else returns (goes_on f [])
  from_client now f source_addr bytes (parsed (addressed _ _ content)) = returns (goes_on f [])
  from_client now f source_addr bytes (parsed (hello _)) =
      if f.has_clients
      then returns (goes_on f (send_client f.hello_response source_addr ∷ []))
      else panics
  from_client now f source_addr bytes parser_error = returns (goes_on f [])
  from_client now f source_addr bytes (tailing_data _ _) = returns (goes_on f [])
  from_client now f source_addr bytes panicked = panics
  from_client now f source_addr bytes diverged = panics

  -- What is sent for an answer of the spa, to where its peer is.
  unfoldable pub deliver :
      PortForward A
      → Bytes
      → NetworkPackage
      → NetworkPackageData
      → ForwardAddr A
      → Outcome (List (Effect A))
  deliver f bytes msg content pipe =
      if f.has_pipe
      then returns (when f.has_dump (send_dump (to local) content) ++ (send_pipe msg ∷ []))
      else panics
  deliver f bytes msg content (socket addr) =
      if f.has_clients
      then returns (
          when f.has_dump (send_dump (to (client addr)) content)
          ++ (send_client bytes addr
              ∷ when (f.has_pipe && is_kind_push_status content) (send_pipe msg)))
      else panics

  unfoldable pub answer_to :
      ℕ → PortForward A → Bytes → NetworkPackage → NetworkPackageData → Option ℕ → Outcome (Turn A)
  answer_to now f bytes msg content none = returns (goes_on f [])
  answer_to now f bytes msg content (some p) = expect (f.forwards.cells p) >>= λ info.
      expect (upgrade info.addr (find addr_eq info.addr f.forwards.addrs)) >>= λ addr.
      deliver f bytes msg content addr >>= λ effects.
      returns (goes_on (record f { forwards = got_reply now p info f.forwards }) effects)

  -- The spa's new name.
  unfoldable pub renamed : PortForward A → Bytes → Option (Bytes × Bytes) → Turn A
  renamed f id none = invalid_spa_name id
  renamed f id (some (new_id, _)) =
      goes_on
        (record f { name = id; id = new_id; hello_response = compose_network_data (hello id) }) []

  -- `SocketData::FromSpa`, behind `parse_network_data`
  unfoldable pub from_spa : ℕ → PortForward A → Bytes → ParseResult → Outcome (Turn A)
  from_spa now f bytes (parsed (addressed src (some dst) content)) =
      answer_to now f bytes (addressed src (some dst) content) content
        (find id_eq dst f.forwards.ids)
  from_spa now f bytes (parsed (addressed src none content)) = returns (goes_on f [])
  from_spa now f bytes (parsed (hello id)) =
      returns (if beq id f.name then goes_on f [] else renamed f id (spa_hello_of id))
  from_spa now f bytes parser_error = returns (goes_on f [])
  from_spa now f bytes (tailing_data _ _) = returns (goes_on f [])
  from_spa now f bytes panicked = panics
  from_spa now f bytes diverged = panics

  abbrev pub pause : PortForward A → Option ℕ → Effect A
  pause f (some next_timeout) = sleep_until next_timeout
  pause f none = sleep (min f.handshake_timeout f.udp_timeout)

  -- `SocketData::Timeout`
  unfoldable pub on_timeout : ℕ → PortForward A → Outcome (Turn A)
  on_timeout now f =
      clear_timeouts id_eq addr_eq now f.forwards f.handshake_timeout f.udp_timeout >>= λ r.
      returns (goes_on (record f { forwards = r.0 }) (pause f r.2 ∷ []))
