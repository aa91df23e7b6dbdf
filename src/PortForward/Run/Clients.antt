-- ===== src/PortForward/Run/Clients.antt =====
-- The forwarder's events of the pipe and of the clients.
use intouch2_mqtt.Base.{
  ℕ, ◌≡◌, ◌≢◌, refl, ap, sym, ◌∙◌, subst, inl, inr, Option, none, some, List, Bytes, beq, [], ◌∷◌,
  ◌++◌, ◌&&◌, All, Bool-cases, Option-cases,
}
use intouch2_mqtt.Outcome.{returns}
use intouch2_mqtt.Nom.{Nom}
use intouch2_mqtt.Framing.{
  NetworkPackage, addressed, hello, ParseResult, parsed, parser_error, tailing_data, panicked,
  diverged,
}
use intouch2_mqtt.Object.{NetworkPackageData}
use intouch2_mqtt.Assoc.{find}
use intouch2_mqtt.ForwardMap.{Info}
use intouch2_mqtt.ForwardMap.Remove.{peers_of_IsPeer}
use intouch2_mqtt.PortForward.{
  PortForward, ForwardAddr, pipe, socket, Effect, send_client, send_pipe, send_dump, when,
  is_kind_set_status, is_kind_push_status, from, to, client, local, goes_on, from_pipe, from_client,
  forward_client, deliver, answer_to,
}
use intouch2_mqtt.ForwardMap.Invariant.{len-returns, upgrade-addr}
use intouch2_mqtt.PortForward.Routing.{insert-cell, count_after-returns}
use intouch2_mqtt.ForwardMap.Touched.{touched, touched-IsValid}
use intouch2_mqtt.PortForward.Valid.{forward_effects}
use intouch2_mqtt.PortForward.Run.{run}
use intouch2_mqtt.PortForward.Run.Peers.{
  IsGood, Reaches, IsGoodTurn, Handled, All-append, when-Reaches, socket_of, inserted-IsGood,
  touched-IsGood,
}

module _ {A : Type 0} (n : Nom) (id_eq : Discrete Bytes) (addr_eq : Discrete (ForwardAddr A))
    (P : A → Type 0) where
  pub from_pipe-Handled :
      (now : ℕ) (f : PortForward A) (x : NetworkPackage)
      → IsGood n id_eq addr_eq P f
      → Handled n id_eq addr_eq P (from_pipe id_eq addr_eq now f x)
  unfolding from_pipe Handled IsGoodTurn
  from_pipe-Handled now f (addressed (some src) dst content) g = (
    goes_on f _,
    refl,
    (
      g,
      All-append n id_eq addr_eq P (when f.has_dump (send_dump (from local) content)) _
          (when-Reaches n id_eq addr_eq P f.has_dump _ tt) (tt, tt),
    ),
  )
  from_pipe-Handled now f (addressed none dst content) g = (goes_on f [], refl, (g, tt))
  from_pipe-Handled now f (hello id) g =
      let (m, p, info, e, v', at_id, cell, own, table) =
        insert-cell id_eq addr_eq now f.forwards pipe id tt g.valid in
      (
        goes_on (record f { forwards = m }) (send_pipe (hello f.name) ∷ []),
        rw (e, g.pipes) refl,
        (inserted-IsGood n id_eq addr_eq P f m pipe g v' (λ a h. cc) table, (tt, tt)),
      )

  forward_client-Handled :
      (now : ℕ) (f : PortForward A) (source_addr : A) (bytes src dst : Bytes)
      (content : NetworkPackageData)
      → IsGood n id_eq addr_eq P f
      → P source_addr
      → Handled n id_eq addr_eq P
          (forward_client id_eq addr_eq now f source_addr bytes src dst content)
  unfolding forward_client Handled IsGoodTurn
  forward_client-Handled now f source_addr bytes src dst content g h =
      let (m, p, info, e, v', at_id, cell, own, table) =
        insert-cell id_eq addr_eq now f.forwards (socket source_addr) src tt g.valid in
      let info' : Info Bytes (ForwardAddr A) (Unit {0}) = record info { last_forward = now } in
      let g' : IsGood n id_eq addr_eq P (record f { forwards = m }) =
        inserted-IsGood n id_eq addr_eq P f m (socket source_addr) g v'
          (λ a s. subst P (sym (socket_of n id_eq addr_eq P s)) h) table in
      let v'' = touched-IsValid id_eq addr_eq m p info info' cell refl refl refl v' in
      let before = len-returns id_eq addr_eq f.forwards g.valid in
      let behind =
        count_after-returns id_eq addr_eq f.verbose (touched id_eq addr_eq m p info') v'' in
      (
        goes_on (record f { forwards = touched id_eq addr_eq m p info' })
            (forward_effects id_eq addr_eq f source_addr bytes src dst content),
        rw (before, e, cell, behind) refl,
        (
          touched-IsGood n id_eq addr_eq P (record f { forwards = m }) p info info' g' cell refl
              refl refl,
          All-append n id_eq addr_eq P
              (when f.has_dump (send_dump (from (client source_addr)) content)) _
              (when-Reaches n id_eq addr_eq P f.has_dump _ tt)
              (tt, when-Reaches n id_eq addr_eq P (f.has_pipe && is_kind_set_status content) _ tt),
        ),
      )

  pub from_client-Handled :
      (now : ℕ) (f : PortForward A) (source_addr : A) (bytes : Bytes) (r : ParseResult)
      → IsGood n id_eq addr_eq P f
      → P source_addr
      → r ≢ panicked
      → r ≢ diverged
      → Handled n id_eq addr_eq P (from_client id_eq addr_eq now f source_addr bytes r)
  unfolding from_client Handled IsGoodTurn
  from_client-Handled now f source_addr bytes (parsed (addressed (some src) (some dst) content)) g p
        h k =
      elim (Bool-cases (beq dst f.id)) [
        | inl own ↦
            let (t, run, good) =
              forward_client-Handled now f source_addr bytes src dst content g p in
            (t, rw own run, good)
        | inr other ↦ (goes_on f [], rw other refl, (g, tt))
      ]
  from_client-Handled now f source_addr bytes (parsed (addressed (some src) none content)) g p h k =
      (goes_on f [], refl, (g, tt))
  from_client-Handled now f source_addr bytes (parsed (addressed none dst content)) g p h k =
      (goes_on f [], refl, (g, tt))
  from_client-Handled now f source_addr bytes (parsed (hello x)) g p h k =
      (goes_on f (send_client f.hello_response source_addr ∷ []), rw (g.clients) refl, (g, (p, tt)))
  from_client-Handled now f source_addr bytes parser_error g p h k = (goes_on f [], refl, (g, tt))
  from_client-Handled now f source_addr bytes (tailing_data msg rest) g p h k =
      (goes_on f [], refl, (g, tt))
  from_client-Handled now f source_addr bytes panicked g p h k = absurd (h refl)
  from_client-Handled now f source_addr bytes diverged g p h k = absurd (k refl)

  pub deliver-Reaches :
      (f : PortForward A) (bytes : Bytes) (msg : NetworkPackage) (content : NetworkPackageData)
      (addr : ForwardAddr A)
      → IsGood n id_eq addr_eq P f
      → ((a : A) → addr ≡ socket a → P a)
      → (effects : List (Effect A)) × (deliver id_eq addr_eq f bytes msg content addr
          ≡ returns effects)
        × All (Reaches n id_eq addr_eq P) effects
  unfolding deliver
  deliver-Reaches f bytes msg content pipe g h = (
    when f.has_dump (send_dump (to local) content) ++ (send_pipe msg ∷ []),
    rw (g.pipes) refl,
    All-append n id_eq addr_eq P (when f.has_dump (send_dump (to local) content)) _
        (when-Reaches n id_eq addr_eq P f.has_dump _ tt) (tt, tt),
  )
  deliver-Reaches f bytes msg content (socket addr) g h = (
    when f.has_dump (send_dump (to (client addr)) content)
        ++ (send_client bytes addr
            ∷ when (f.has_pipe && is_kind_push_status content) (send_pipe msg)),
    rw (g.clients) refl,
    All-append n id_eq addr_eq P (when f.has_dump (send_dump (to (client addr)) content)) _
        (when-Reaches n id_eq addr_eq P f.has_dump _ tt)
        (
          h addr refl,
          when-Reaches n id_eq addr_eq P (f.has_pipe && is_kind_push_status content) _ tt,
        ),
  )

  pub answer_to-Handled :
      (now : ℕ) (f : PortForward A) (bytes : Bytes) (msg : NetworkPackage)
      (content : NetworkPackageData) (dst : Bytes)
      → IsGood n id_eq addr_eq P f
      → Handled n id_eq addr_eq P
          (answer_to id_eq addr_eq now f bytes msg content (find id_eq dst f.forwards.ids))
  unfolding answer_to Handled IsGoodTurn
  answer_to-Handled now f bytes msg content dst g =
      elim (Option-cases (find id_eq dst f.forwards.ids)) [
        | inl absent ↦ (goes_on f [], rw absent refl, (g, tt))
        | inr (q, present) ↦
            let (addr, info, b, live) = g.valid.by_id dst q present in
            let (effects, sent, reach) = deliver-Reaches f bytes msg content info.addr g (λ a h.
              g.known dst a info.context (
                peers_of_IsPeer id_eq addr_eq f.forwards b
                ∙ ap (λ (x : ForwardAddr A). line_of x info.context) (sym b.own_addr ∙ h))) in
            let info' : Info Bytes (ForwardAddr A) (Unit {0}) = record info {
              last_reply = some now;
            } in
            (
              goes_on (record f { forwards = touched id_eq addr_eq f.forwards q info' }) effects,
              rw (present, b.cell, upgrade-addr id_eq addr_eq f.forwards b, sent) refl,
              (touched-IsGood n id_eq addr_eq P f q info info' g b.cell refl refl refl, reach),
            )
      ]
    where
      line_of : ForwardAddr A → Option (Unit {0}) → Option (ForwardAddr A × Option (Unit {0}))
      line_of x c = some (x, c)
