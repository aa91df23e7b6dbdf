-- ===== src/PortForward/Valid.antt =====
-- The forwarder's mapping over the events of `run` of intouch2-mqtt/src/port_forward.rs.
use intouch2_mqtt.Base.{
  ℕ, ◌≡◌, ◌≢◌, refl, true, inl, inr, Option, none, some, List, Bytes, beq, [], ◌∷◌, ◌++◌, ◌&&◌,
  Bool-cases, Option-cases,
}
use intouch2_mqtt.Outcome.{returns}
use intouch2_mqtt.Framing.{
  NetworkPackage, addressed, hello, ParseResult, parsed, parser_error, tailing_data, panicked,
  diverged,
}
use intouch2_mqtt.Object.{NetworkPackageData}
use intouch2_mqtt.Assoc.{find}
use intouch2_mqtt.ForwardMap.{Info}
use intouch2_mqtt.ForwardMap.Invariant.{IsValid, len-returns, upgrade-addr}
use intouch2_mqtt.ForwardMap.Touched.{touched, touched-IsValid}
use intouch2_mqtt.PortForward.{
  invalid_spa_name, pipe, local, to, is_kind_push_status, deliver, answer_to, renamed, from_spa,
  spa_hello_of, PortForward, ForwardAddr, socket, Effect, send_spa, send_client, send_pipe,
  send_dump, from, client, when, is_kind_set_status, Turn, goes_on, from_client, forward_client,
}
use intouch2_mqtt.PortForward.Routing.{insert-cell, count_after-returns}

module _ {A : Type 0} (id_eq : Discrete Bytes) (addr_eq : Discrete (ForwardAddr A)) where
  -- What is sent for a package of a client.
  abbrev pub forward_effects :
      PortForward A → A → Bytes → Bytes → Bytes → NetworkPackageData → List (Effect A)
  forward_effects f source_addr bytes src dst content =
      when f.has_dump (send_dump (from (client source_addr)) content)
      ++ (send_spa bytes
          ∷ when (f.has_pipe && is_kind_set_status content)
              (send_pipe (addressed (some src) (some dst) content)))

  forward_client-IsValid :
      (now : ℕ) (f : PortForward A) (source_addr : A) (bytes src dst : Bytes)
      (content : NetworkPackageData)
      → IsValid id_eq addr_eq f.forwards
      → (f' : PortForward A) × (effects : List (Effect A)) × (forward_client id_eq addr_eq now f
            source_addr bytes src dst content
          ≡ returns (goes_on f' effects))
        × IsValid id_eq addr_eq f'.forwards
  unfolding forward_client
  forward_client-IsValid now f source_addr bytes src dst content v =
      let (m, p, info, e, v', at_id, cell, own, _) =
        insert-cell id_eq addr_eq now f.forwards (socket source_addr) src tt v in
      let info' : Info Bytes (ForwardAddr A) (Unit {0}) = record info { last_forward = now } in
      let v'' = touched-IsValid id_eq addr_eq m p info info' cell refl refl refl v' in
      let before = len-returns id_eq addr_eq f.forwards v in
      let behind =
        count_after-returns id_eq addr_eq f.verbose (touched id_eq addr_eq m p info') v'' in
      (
        record f { forwards = touched id_eq addr_eq m p info' },
        forward_effects f source_addr bytes src dst content,
        rw (before, e, cell, behind) refl,
        v'',
      )

  -- With a socket for clients and agreeing maps, every datagram of a client that the reader
  -- reads, or refuses with an error, is handled without a panic, and the maps still agree.
  pub from_client-IsValid :
      (now : ℕ) (f : PortForward A) (source_addr : A) (bytes : Bytes) (r : ParseResult)
      → IsValid id_eq addr_eq f.forwards
      → f.has_clients ≡ true
      → r ≢ panicked
      → r ≢ diverged
      → (f' : PortForward A) × (effects : List (Effect A)) × (from_client id_eq addr_eq now f
            source_addr bytes r
          ≡ returns (goes_on f' effects))
        × IsValid id_eq addr_eq f'.forwards
  unfolding from_client
  from_client-IsValid now f source_addr bytes (parsed (addressed (some src) (some dst) content)) v c
        h k =
      elim (Bool-cases (beq dst f.id)) [
        | inl own ↦
            let (f', effects, run, v') =
              forward_client-IsValid now f source_addr bytes src dst content v in
            (f', effects, rw own run, v')
        | inr other ↦ (f, [], rw other refl, v)
      ]
  from_client-IsValid now f source_addr bytes (parsed (addressed (some src) none content)) v c h k =
      (f, [], refl, v)
  from_client-IsValid now f source_addr bytes (parsed (addressed none dst content)) v c h k =
      (f, [], refl, v)
  from_client-IsValid now f source_addr bytes (parsed (hello x)) v c h k =
      (f, send_client f.hello_response source_addr ∷ [], rw c refl, v)
  from_client-IsValid now f source_addr bytes parser_error v c h k = (f, [], refl, v)
  from_client-IsValid now f source_addr bytes (tailing_data msg rest) v c h k = (f, [], refl, v)
  from_client-IsValid now f source_addr bytes panicked v c h k = absurd (h refl)
  from_client-IsValid now f source_addr bytes diverged v c h k = absurd (k refl)

  -- The maps agree behind a turn, or `run` ended with a name that is no spa's.
  abbrev pub KeepsValid : Turn A → Type 0
  KeepsValid (goes_on f effects) = IsValid id_eq addr_eq f.forwards
  KeepsValid (invalid_spa_name name) = Unit {0}

  pub deliver-returns :
      (f : PortForward A) (bytes : Bytes) (msg : NetworkPackage) (content : NetworkPackageData)
      (addr : ForwardAddr A)
      → f.has_clients ≡ true
      → f.has_pipe ≡ true
      → (effects : List (Effect A)) × (deliver id_eq addr_eq f bytes msg content addr
          ≡ returns effects)
  unfolding deliver
  deliver-returns f bytes msg content pipe c p =
      (when f.has_dump (send_dump (to local) content) ++ (send_pipe msg ∷ []), rw p refl)
  deliver-returns f bytes msg content (socket addr) c p = (
    when f.has_dump (send_dump (to (client addr)) content)
        ++ (send_client bytes addr
            ∷ when (f.has_pipe && is_kind_push_status content) (send_pipe msg)),
    rw c refl,
  )

  answer_to-IsValid :
      (now : ℕ) (f : PortForward A) (bytes : Bytes) (msg : NetworkPackage)
      (content : NetworkPackageData) (dst : Bytes)
      → IsValid id_eq addr_eq f.forwards
      → f.has_clients ≡ true
      → f.has_pipe ≡ true
      → (t : Turn A) × (answer_to id_eq addr_eq now f bytes msg content
            (find id_eq dst f.forwards.ids)
          ≡ returns t)
        × KeepsValid t
  unfolding answer_to
  answer_to-IsValid now f bytes msg content dst v c p =
      elim (Option-cases (find id_eq dst f.forwards.ids)) [
        | inl absent ↦ (goes_on f [], rw absent refl, v)
        | inr (q, present) ↦
            let (addr, info, b, live) = v.by_id dst q present in
            let (effects, sent) = deliver-returns f bytes msg content info.addr c p in
            let info' : Info Bytes (ForwardAddr A) (Unit {0}) = record info {
              last_reply = some now;
            } in
            (
              goes_on (record f { forwards = touched id_eq addr_eq f.forwards q info' }) effects,
              rw (present, b.cell, upgrade-addr id_eq addr_eq f.forwards b, sent) refl,
              touched-IsValid id_eq addr_eq f.forwards q info info' b.cell refl refl refl v,
            )
      ]

  renamed-IsValid :
      (f : PortForward A) (id : Bytes) (o : Option (Bytes × Bytes))
      → IsValid id_eq addr_eq f.forwards
      → KeepsValid (renamed id_eq addr_eq f id o)
  unfolding renamed
  renamed-IsValid f id none v = tt
  renamed-IsValid f id (some r) v = v

  -- With a socket for clients, an internal pipe and agreeing maps, every datagram of the spa that
  -- the reader reads, or refuses with an error, is handled without a panic; unless the run ends
  -- with a name that is no spa's, the maps still agree.
  pub from_spa-IsValid :
      (now : ℕ) (f : PortForward A) (bytes : Bytes) (r : ParseResult)
      → IsValid id_eq addr_eq f.forwards
      → f.has_clients ≡ true
      → f.has_pipe ≡ true
      → r ≢ panicked
      → r ≢ diverged
      → (t : Turn A) × (from_spa id_eq addr_eq now f bytes r ≡ returns t) × KeepsValid t
  unfolding from_spa
  from_spa-IsValid now f bytes (parsed (addressed src (some dst) content)) v c p h k =
      answer_to-IsValid now f bytes (addressed src (some dst) content) content dst v c p
  from_spa-IsValid now f bytes (parsed (addressed src none content)) v c p h k =
      (goes_on f [], refl, v)
  from_spa-IsValid now f bytes (parsed (hello id)) v c p h k = elim (Bool-cases (beq id f.name)) [
    | inl same ↦ (goes_on f [], rw same refl, v)
    | inr new ↦ (
      renamed id_eq addr_eq f id (spa_hello_of id),
      rw new refl,
      renamed-IsValid f id (spa_hello_of id) v,
    )
  ]
  from_spa-IsValid now f bytes parser_error v c p h k = (goes_on f [], refl, v)
  from_spa-IsValid now f bytes (tailing_data msg rest) v c p h k = (goes_on f [], refl, v)
  from_spa-IsValid now f bytes panicked v c p h k = absurd (h refl)
  from_spa-IsValid now f bytes diverged v c p h k = absurd (k refl)
