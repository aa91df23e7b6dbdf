-- ===== src/PortForward/Examples.antt =====
-- Runs of the forwarder.
use native.Mathlib.Decide.{ℕ_discrete}
use mathlib.Core.List.{List-discrete}
use intouch2_mqtt.Base.{
  List, ℕ, Bytes, Option, ◌≢◌, ◌≡◌, refl, ap, true, false, ◌&&◌, none, some, [], ◌∷◌, ◌++◌, codes,
}
use intouch2_mqtt.Outcome.{returns}
use intouch2_mqtt.Nom.Reference.{reference}
use intouch2_mqtt.Object.{Kind, NetworkPackageData}
use intouch2_mqtt.Framing.{
  addressed, parsed, hello, compose_network_data, parse_network_data, panicked, diverged,
}
use intouch2_mqtt.ForwardMap.{empty}
use intouch2_mqtt.ForwardMap.Invariant.{empty-IsValid}
use intouch2_mqtt.Spa.{split_name}
use intouch2_mqtt.PortForward.{
  PortForward, ForwardAddr, socket, pipe, send_spa, send_pipe, send_dump, from, client, goes_on,
  when, is_kind_set_status, from_client, from_spa, spa_hello_of, spa_timeout, timed_out, find_spa,
  probe,
}
use intouch2_mqtt.PortForward.Hello.{or_panic, split_name-spa_hello_of, IsWithin, find_spa-IsWithin}
use intouch2_mqtt.Framing.RoundTrip.{parse-compose_hello}
use intouch2_mqtt.Assoc.{find}
use intouch2_mqtt.ForwardMap.{get_id}
use intouch2_mqtt.ForwardMap.Remove.{peers}
use intouch2_mqtt.PortForward.Run.{
  SocketData, from_pipe_data, from_client_data, from_spa_data, timeout_data, pipe_died, Service,
  run,
}
use intouch2_mqtt.PortForward.Run.Safety.{IsSafe, run-IsSafe}
use intouch2_mqtt.PortForward.Routing.{answer_effects, from_client-from_spa}

addr_eq : Discrete (ForwardAddr ℕ)
addr_eq pipe pipe = yes refl
addr_eq pipe (socket a) = no (λ h. cc)
addr_eq (socket a) pipe = no (λ h. cc)
addr_eq (socket a) (socket b) = elim (ℕ_discrete a b) [
  | yes p ↦ yes (ap socket p)
  | no p ↦ no (λ h. p (cc))
]

abbrev start : PortForward ℕ
start = record {
  forwards = empty;
  name = codes "SPA7|Pool";
  id = codes "SPA7";
  hello_response = compose_network_data (hello (codes "SPA7"));
  has_clients = true;
  has_pipe = true;
  has_dump = false;
  verbose = true;
  handshake_timeout = 10;
  udp_timeout = 20;
}

abbrev question : NetworkPackageData
question = (Kind.get_watercare, (0, tt))

abbrev reply : NetworkPackageData
reply = (Kind.watercare_get, (2, tt))

from_client-from_spa_example :
    (f' f'' : PortForward ℕ) × (from_client
        (List-discrete ℕ_discrete)
        addr_eq
        5
        start
        7000
        (codes "raw")
        (parsed (addressed (some (codes "IOS1")) (some start.id) question))
      ≡ returns (
          goes_on f' (
            when start.has_dump (send_dump (from (client 7000)) question)
            ++ (send_spa (codes "raw")
                ∷ when
                    (start.has_pipe && is_kind_set_status question)
                    (send_pipe (addressed (some (codes "IOS1")) (some start.id) question))))))
    × (from_spa
          (List-discrete ℕ_discrete)
          addr_eq
          6
          f'
          (codes "answer")
          (parsed (addressed none (some (codes "IOS1")) reply))
        ≡ returns (
            goes_on f'' (
              answer_effects
                (List-discrete ℕ_discrete)
                addr_eq
                start
                (codes "answer")
                (addressed none (some (codes "IOS1")) reply)
                reply
                7000)))
from_client-from_spa_example =
    from_client-from_spa (List-discrete ℕ_discrete) addr_eq 5 6 start 7000 (codes "raw")
      (codes "answer") (codes "IOS1") question reply none
      (empty-IsValid (List-discrete ℕ_discrete) addr_eq) refl

split_name-spa_hello_of_example :
    split_name (codes "SPA7|Pool") ≡ or_panic (spa_hello_of (codes "SPA7|Pool"))
split_name-spa_hello_of_example = split_name-spa_hello_of (codes "SPA7|Pool")

silent :
    find_spa reference (timed_out ∷ timed_out ∷ timed_out ∷ timed_out ∷ timed_out ∷ [])
    ≡ returns (spa_timeout 5)
unfolding probe
silent = refl

find_spa-IsWithin_example : IsWithin 5 (spa_timeout 5)
find_spa-IsWithin_example =
    find_spa-IsWithin reference (timed_out ∷ timed_out ∷ timed_out ∷ timed_out ∷ timed_out ∷ [])
      (spa_timeout 5) silent

-- A hello of the spa's, with bytes that the reader reads.
abbrev named : Bytes
named = compose_network_data (hello (codes "SPA7|Pool"))

named_read : parse_network_data reference named ≡ parsed (hello (codes "SPA7|Pool"))
named_read = parse-compose_hello reference (codes "SPA7|Pool") refl

named-not_panicked : parse_network_data reference named ≢ panicked
named-not_panicked h = cc (named_read, h)

named-not_diverged : parse_network_data reference named ≢ diverged
named-not_diverged h = cc (named_read, h)

-- A client says hello, the spa answers, the pipe asks, and peers time out.
abbrev day : List (SocketData ℕ)
day =
    from_client_data 1 7000 named
    ∷ from_spa_data 2 named
    ∷ from_pipe_data 3 (hello (codes "IOS2"))
    ∷ timeout_data 90
    ∷ pipe_died
    ∷ []

no_peers :
    (j : Bytes) (a : ℕ) (c : Option (Unit {0}))
    → peers (List-discrete ℕ_discrete) addr_eq start.forwards j ≡ some (socket a, c)
    → a ≡ 7000
unfolding peers get_id find
no_peers j a c h = cc

run-IsSafe_example :
    (s : Service ℕ) × (run reference (List-discrete ℕ_discrete) addr_eq start day ≡ returns s)
    × IsSafe reference (List-discrete ℕ_discrete) addr_eq (λ a. a ≡ 7000) s
run-IsSafe_example =
    run-IsSafe reference (List-discrete ℕ_discrete) addr_eq (λ a. a ≡ 7000) start day
      (empty-IsValid (List-discrete ℕ_discrete) addr_eq) refl refl no_peers
      (
        (refl, named-not_panicked, named-not_diverged),
        ((named-not_panicked, named-not_diverged), (tt, (tt, (tt, tt)))),
      )
