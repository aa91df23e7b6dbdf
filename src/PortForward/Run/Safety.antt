-- ===== src/PortForward/Run/Safety.antt =====
-- A run of the forwarder never panics, keeps its maps in agreement, and answers no one who has not
-- written to it.
use intouch2_mqtt.Base.{◌≡◌, refl, true, Option, some, List, Bytes, [], ◌∷◌, All}
use intouch2_mqtt.Outcome.{Outcome, returns}
use intouch2_mqtt.Nom.{Nom}
use intouch2_mqtt.ForwardMap.Invariant.{IsValid}
use intouch2_mqtt.ForwardMap.Remove.{peers}
use intouch2_mqtt.PortForward.{
  PortForward, ForwardAddr, socket, Effect, Turn, goes_on, invalid_spa_name,
}
use intouch2_mqtt.PortForward.Run.{SocketData, Service, serves, stops, having_sent, after_turn, run}
use intouch2_mqtt.PortForward.Run.Peers.{
  IsGood, Reaches, IsGoodTurn, IsGoodData, Handled, All-append,
}
use intouch2_mqtt.PortForward.Run.Events.{on_data-Handled}

module _ {A : Type 0} (n : Nom) (id_eq : Discrete Bytes) (addr_eq : Discrete (ForwardAddr A))
    (P : A → Type 0) where
  -- The maps agree behind a run, and what it sent went to no client but those that satisfy P.
  abbrev pub IsSafe : Service A → Type 0
  IsSafe (serves f effects) =
      IsValid id_eq addr_eq f.forwards × All (Reaches n id_eq addr_eq P) effects
  IsSafe (stops name effects) = All (Reaches n id_eq addr_eq P) effects

  having_sent-IsSafe :
      (effects : List (Effect A)) (s : Service A)
      → All (Reaches n id_eq addr_eq P) effects
      → IsSafe s
      → IsSafe (having_sent effects s)
  having_sent-IsSafe effects (serves f later) h (v, k) =
      (v, All-append n id_eq addr_eq P effects later h k)
  having_sent-IsSafe effects (stops name later) h k = All-append n id_eq addr_eq P effects later h k

  IsServed : Outcome (Service A) → Type 0
  IsServed o = (s : Service A) × (o ≡ returns s) × IsSafe s

  after_turn-IsServed :
      (t : Turn A) (later : PortForward A → Outcome (Service A))
      → IsGoodTurn n id_eq addr_eq P t
      → ((f : PortForward A) → IsGood n id_eq addr_eq P f → IsServed (later f))
      → IsServed (after_turn t later)
  unfolding IsServed IsGoodTurn
  after_turn-IsServed (goes_on f effects) later (g, reach) h =
      let (s, r, safe) = h f g in
      (having_sent effects s, rw r refl, having_sent-IsSafe effects s reach safe)
  after_turn-IsServed (invalid_spa_name name) later good h = (stops name [], refl, tt)

  run-IsServed :
      (f : PortForward A) (events : List (SocketData A))
      → IsGood n id_eq addr_eq P f
      → All (IsGoodData n id_eq addr_eq P) events
      → IsServed (run n id_eq addr_eq f events)
  unfolding run IsServed Handled
  run-IsServed f [] g all = (serves f [], refl, (g.valid, tt))
  run-IsServed f (event ∷ events) g (h, all) =
      let (t, e, good) = on_data-Handled n id_eq addr_eq P f event g h in
      let (s, r, safe) =
        after_turn-IsServed t (λ f'. run n id_eq addr_eq f' events) good
          (λ f' g'. run-IsServed f' events g' all) in
      (s, rw e r, safe)

  -- Let P be a property of addresses. If the maps agree, there is a socket for clients and an
  -- internal pipe, every peer at a socket has P, every client that a datagram comes from has P,
  -- and the reader neither panics nor runs for ever on a datagram: then a run over any events
  -- never panics. What it sends to clients goes to addresses with P only, and unless it ends with
  -- a name that is no spa's, the maps agree behind it.
  pub run-IsSafe :
      (f : PortForward A) (events : List (SocketData A))
      → IsValid id_eq addr_eq f.forwards
      → f.has_clients ≡ true
      → f.has_pipe ≡ true
      → ((j : Bytes) (a : A) (c : Option (Unit {0}))
          → peers id_eq addr_eq f.forwards j ≡ some (socket a, c)
          → P a)
      → All (IsGoodData n id_eq addr_eq P) events
      → (s : Service A) × (run n id_eq addr_eq f events ≡ returns s) × IsSafe s
  unfolding IsServed
  run-IsSafe f events v clients pipes known all =
      run-IsServed f events (record { valid = v; clients = clients; pipes = pipes; known = known })
        all
