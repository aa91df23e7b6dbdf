-- ===== src/PortForward/Run.antt =====
-- `PortForward::run` of intouch2-mqtt/src/port_forward.rs over what its workers give it, one event
-- after the other.
pub mod Peers
pub mod Clients
pub mod Events
pub mod Safety
use intouch2_mqtt.Base.{ℕ, List, [], ◌∷◌, ◌++◌, Bytes, Option}
use intouch2_mqtt.Outcome.{Outcome, returns, panics, ◌>>=◌}
use intouch2_mqtt.Nom.{Nom}
use intouch2_mqtt.Framing.{NetworkPackage, parse_network_data}
use intouch2_mqtt.PortForward.{
  PortForward, ForwardAddr, Effect, Turn, goes_on, invalid_spa_name, from_pipe, from_client,
  from_spa, on_timeout,
}

-- `SocketData`, each with the time at which it is handled.
pub data SocketData (A : Type 0) : Type 0 where
  from_pipe_data : ℕ → NetworkPackage → SocketData A
  from_client_data : ℕ → A → Bytes → SocketData A
  from_spa_data : ℕ → Bytes → SocketData A
  timeout_data : ℕ → SocketData A
  pipe_died : SocketData A

-- How a run is after its events, with all that it sent.
pub data Service (A : Type 0) : Type 0 where
  serves : PortForward A → List (Effect A) → Service A
  stops : Bytes → List (Effect A) → Service A

abbrev pub having_sent : {A : Type 0} → List (Effect A) → Service A → Service A
having_sent effects (serves f later) = serves f (effects ++ later)
having_sent effects (stops name later) = stops name (effects ++ later)

abbrev pub after_turn :
    {A : Type 0} → Turn A → (PortForward A → Outcome (Service A)) → Outcome (Service A)
after_turn (goes_on f effects) run = run f >>= λ s. returns (having_sent effects s)
after_turn (invalid_spa_name name) run = returns (stops name [])

module _ {A : Type 0} (n : Nom) (id_eq : Discrete Bytes) (addr_eq : Discrete (ForwardAddr A)) where
  unfoldable pub on_data : PortForward A → SocketData A → Outcome (Turn A)
  on_data f (from_pipe_data now package_data) = from_pipe id_eq addr_eq now f package_data
  on_data f (from_client_data now addr bytes) =
      from_client id_eq addr_eq now f addr bytes (parse_network_data n bytes)
  on_data f (from_spa_data now bytes) =
      from_spa id_eq addr_eq now f bytes (parse_network_data n bytes)
  on_data f (timeout_data now) = on_timeout id_eq addr_eq now f
  on_data f pipe_died = returns (goes_on f [])

  unfoldable pub run : PortForward A → List (SocketData A) → Outcome (Service A)
  run f [] = returns (serves f [])
  run f (event ∷ events) = on_data f event >>= λ turn. after_turn turn (λ f'. run f' events)
