-- ===== src/PortForward/Run/Events.antt =====
-- The forwarder's events of the spa and of time-outs, and every event.
use intouch2_mqtt.Base.{
  ℕ, ◌≢◌, refl, sym, ◌∙◌, inl, inr, Option, none, some, Bytes, beq, [], ◌∷◌, Bool-cases,
}
use intouch2_mqtt.Nom.{Nom}
use intouch2_mqtt.Framing.{
  addressed, hello, ParseResult, parsed, parser_error, tailing_data, panicked, diverged,
}
use intouch2_mqtt.ForwardMap.Remove.{peers}
use intouch2_mqtt.ForwardMap.Timeouts.{late, clear_timeouts_lem}
use intouch2_mqtt.PortForward.{
  PortForward, ForwardAddr, goes_on, from_spa, renamed, spa_hello_of, on_timeout, pause,
}
use intouch2_mqtt.PortForward.Run.{
  SocketData, from_pipe_data, from_client_data, from_spa_data, timeout_data, pipe_died, on_data,
}
use intouch2_mqtt.PortForward.Run.Peers.{
  without_ids_line, IsGood, Reaches, IsGoodTurn, IsGoodData, Handled,
}
use intouch2_mqtt.PortForward.Run.Clients.{
  from_pipe-Handled, from_client-Handled, answer_to-Handled,
}

module _ {A : Type 0} (n : Nom) (id_eq : Discrete Bytes) (addr_eq : Discrete (ForwardAddr A))
    (P : A → Type 0) where
  renamed-IsGood :
      (f : PortForward A) (id : Bytes) (o : Option (Bytes × Bytes))
      → IsGood n id_eq addr_eq P f
      → IsGoodTurn n id_eq addr_eq P (renamed id_eq addr_eq f id o)
  unfolding renamed IsGoodTurn
  renamed-IsGood f id none g = tt
  renamed-IsGood f id (some r) g =
      (record { valid = g.valid; clients = g.clients; pipes = g.pipes; known = g.known }, tt)

  from_spa-Handled :
      (now : ℕ) (f : PortForward A) (bytes : Bytes) (r : ParseResult)
      → IsGood n id_eq addr_eq P f
      → r ≢ panicked
      → r ≢ diverged
      → Handled n id_eq addr_eq P (from_spa id_eq addr_eq now f bytes r)
  unfolding from_spa Handled IsGoodTurn
  from_spa-Handled now f bytes (parsed (addressed src (some dst) content)) g h k =
      answer_to-Handled n id_eq addr_eq P now f bytes (addressed src (some dst) content) content dst
        g
  from_spa-Handled now f bytes (parsed (addressed src none content)) g h k =
      (goes_on f [], refl, (g, tt))
  from_spa-Handled now f bytes (parsed (hello id)) g h k = elim (Bool-cases (beq id f.name)) [
    | inl same ↦ (goes_on f [], rw same refl, (g, tt))
    | inr new ↦ (
      renamed id_eq addr_eq f id (spa_hello_of id),
      rw new refl,
      renamed-IsGood f id (spa_hello_of id) g,
    )
  ]
  from_spa-Handled now f bytes parser_error g h k = (goes_on f [], refl, (g, tt))
  from_spa-Handled now f bytes (tailing_data msg rest) g h k = (goes_on f [], refl, (g, tt))
  from_spa-Handled now f bytes panicked g h k = absurd (h refl)
  from_spa-Handled now f bytes diverged g h k = absurd (k refl)

  pause-Reaches :
      (f : PortForward A) (next : Option ℕ) → Reaches n id_eq addr_eq P (pause id_eq addr_eq f next)
  pause-Reaches f none = tt
  pause-Reaches f (some deadline) = tt

  on_timeout-Handled :
      (now : ℕ) (f : PortForward A)
      → IsGood n id_eq addr_eq P f
      → Handled n id_eq addr_eq P (on_timeout id_eq addr_eq now f)
  unfolding on_timeout Handled IsGoodTurn
  on_timeout-Handled now f g =
      let (m, removed, next, e, v', table, _, _) =
        clear_timeouts_lem id_eq addr_eq now f.forwards f.handshake_timeout f.udp_timeout g.valid in
      (
        goes_on (record f { forwards = m }) (pause id_eq addr_eq f next ∷ []),
        rw e refl,
        (
          record {
            valid = v';
            clients = g.clients;
            pipes = g.pipes;
            known = λ j a c h. g.known j a c (
                without_ids_line id_eq addr_eq (peers id_eq addr_eq f.forwards)
                  (late id_eq addr_eq f.forwards now f.handshake_timeout f.udp_timeout
                    f.forwards.addrs)
                  j _ (sym (table j) ∙ h));
          },
          (pause-Reaches f next, tt),
        ),
      )

  pub on_data-Handled :
      (f : PortForward A) (event : SocketData A)
      → IsGood n id_eq addr_eq P f
      → IsGoodData n id_eq addr_eq P event
      → Handled n id_eq addr_eq P (on_data n id_eq addr_eq f event)
  unfolding on_data Handled IsGoodTurn
  on_data-Handled f (from_pipe_data now x) g h = from_pipe-Handled n id_eq addr_eq P now f x g
  on_data-Handled f (from_client_data now addr bytes) g (p, h, k) =
      from_client-Handled n id_eq addr_eq P now f addr bytes _ g p h k
  on_data-Handled f (from_spa_data now bytes) g (h, k) = from_spa-Handled now f bytes _ g h k
  on_data-Handled f (timeout_data now) g h = on_timeout-Handled now f g
  on_data-Handled f pipe_died g h = (goes_on f [], refl, (g, tt))
