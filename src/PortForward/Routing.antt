-- ===== src/PortForward/Routing.antt =====
-- Where packages go between the clients and the spa: `run` of intouch2-mqtt/src/port_forward.rs.
use mathlib.Core.Logic.{ite, if_pos, if_neg}
use intouch2_mqtt.Base.{
  ◌⊎◌, ℕ, ◌≡◌, ◌≢◌, refl, ap, sym, subst, eq_of_some, ◌∙◌, Bool, false, true, inl, inr, Option,
  none, some, List, ◌∷◌, ◌++◌, Bytes, beq_refl, ==_refl, ◌&&◌,
}
use intouch2_mqtt.Outcome.{returns}
use intouch2_mqtt.Object.{NetworkPackageData}
use intouch2_mqtt.Framing.{NetworkPackage, addressed, parsed}
use intouch2_mqtt.Assoc.{find}
use intouch2_mqtt.ForwardMap.{Info, ForwardMapping, insert, upgrade}
use intouch2_mqtt.ForwardMap.Table.{unless_at}
use intouch2_mqtt.ForwardMap.Invariant.{IsValid, len-returns, upgrade-addr}
use intouch2_mqtt.ForwardMap.Touched.{touched, touched-IsValid}
use intouch2_mqtt.ForwardMap.Remove.{peers, peers_of_IsPeer}
use intouch2_mqtt.ForwardMap.Insert.{insert_new, insert_known}
use intouch2_mqtt.PortForward.{
  PortForward, ForwardAddr, socket, Effect, send_spa, send_client, send_pipe, send_dump, from, to,
  client, goes_on, when, is_kind_set_status, is_kind_push_status, from_client, from_spa,
  forward_client, answer_to, deliver, got_reply, count_after,
}

none_ne : {B : Type 0} (b : B) → none ≢ some b
none_ne b h = cc

module _ {I A T : Type 0} (id_eq : Discrete I) (addr_eq : Discrete A) where
  -- The cell of a line of the table.
  cell-of :
      (m : ForwardMapping I A T) (addr : A) (id : I) (p : ℕ)
      → IsValid id_eq addr_eq m
      → find id_eq id m.ids ≡ some p
      → (c : Option T) × (peers id_eq addr_eq m id ≡ some (addr, c))
      → (info : Info I A T) × (m.cells p ≡ some info) × (info.addr ≡ addr)
  cell-of m addr id p v found (c, at) =
      let (addr', info, b, _) = v.by_id id p found in
      let same : addr' ≡ addr = cc (peers_of_IsPeer id_eq addr_eq m b, at) in
      (info, b.cell, b.own_addr ∙ same)

  unless_at_line :
      (addr : A) (line : Option (A × Option T)) (a : A) (c : Option T)
      → unless_at addr_eq addr line ≡ some (a, c)
      → (a ≡ addr) ⊎ ((old : Option T) × (line ≡ some (a, old)))
  unless_at_line addr none a c h = cc
  unless_at_line addr (some (a', old)) a c h = elim (addr_eq a' addr) [
    | yes at ↦
        let e : none ≡ some (a, c) = sym (if_pos (addr_eq a' addr) at none (some (a', old))) ∙ h in
        absurd (none_ne (a, c) e)
    | no away ↦ inr (c, sym (if_neg (addr_eq a' addr) away none (some (a', old))) ∙ h)
  ]

  -- The lines of a table with a new peer are its own and those from before.
  with_peer_line :
      (j id : I) (addr : A) (c : T) (line : Option (A × Option T)) (a : A) (c' : Option T)
      → ite (id_eq j id) (some (addr, some c)) (unless_at addr_eq addr line) ≡ some (a, c')
      → (a ≡ addr) ⊎ ((old : Option T) × (line ≡ some (a, old)))
  with_peer_line j id addr c line a c' h = elim (id_eq j id) [
    | yes same ↦
        let e : some (addr, some c) ≡ some (a, c') =
          sym (if_pos (id_eq j id) same (some (addr, some c)) (unless_at addr_eq addr line)) ∙ h in
        inl (cc e)
    | no other ↦
        unless_at_line addr line a c'
          (sym (if_neg (id_eq j id) other (some (addr, some c)) (unless_at addr_eq addr line)) ∙ h)
  ]

  -- Behind an insertion, the id leads to a cell with the address, whatever was in the maps.
  pub insert-cell :
      (now : ℕ) (m : ForwardMapping I A T) (addr : A) (id : I) (c : T)
      → IsValid id_eq addr_eq m
      → (m' : ForwardMapping I A T) × (p : ℕ) × (info : Info I A T) × (insert id_eq addr_eq now m
            addr id c
          ≡ returns (m', some p))
        × IsValid id_eq addr_eq m'
        × (find id_eq id m'.ids ≡ some p)
        × (m'.cells p ≡ some info)
        × (info.addr ≡ addr)
        × ((j : I) (a : A) (c' : Option T)
            → peers id_eq addr_eq m' j ≡ some (a, c')
            → (a ≡ addr) ⊎ ((c'' : Option T) × (peers id_eq addr_eq m j ≡ some (a, c''))))
  insert-cell now m addr id c v = elim (at_or_away (peers id_eq addr_eq m id) addr) [
    | inl (c', at) ↦
        let (p, e, found) = insert_known id_eq addr_eq now m addr id c v at in
        let (info, cell, own) = cell-of m addr id p v found (c', at) in
        (m, p, info, e, v, found, cell, own, λ j a c'' h. inr (c'', h))
    | inr away ↦
        let (m', p, e, v', found, table) = insert_new id_eq addr_eq now m addr id c v away in
        let (info, cell, own) =
          cell-of m' addr id p v' found (some c, table id ∙ if_pos (id_eq id id) refl _ _) in
        (
          m',
          p,
          info,
          e,
          v',
          found,
          cell,
          own,
          λ j a c' h. with_peer_line j id addr c (peers id_eq addr_eq m j) a c' (sym (table j) ∙ h),
        )
  ]
    where
      at_or_away :
          (line : Option (A × Option T)) (addr : A)
          → ((c' : Option T) × (line ≡ some (addr, c')))
            ⊎ ((c' : Option T) → line ≢ some (addr, c'))
      at_or_away none addr = inr (λ c' h. cc)
      at_or_away (some (a, c')) addr = elim (addr_eq a addr) [
        | yes same ↦ inl (c', ap (λ x. some (x, c')) same)
        | no other ↦ inr (λ c'' h. other (cc))
      ]

module _ {A : Type 0} (id_eq : Discrete Bytes) (addr_eq : Discrete (ForwardAddr A)) where
  -- Where the maps agree, counting the peers again does not panic.
  pub count_after-returns :
      (verbose : Bool) (m : ForwardMapping Bytes (ForwardAddr A) (Unit {0}))
      → IsValid id_eq addr_eq m
      → count_after id_eq addr_eq verbose m ≡ returns tt
  unfolding count_after
  count_after-returns false m v = refl
  count_after-returns true m v = rw (len-returns id_eq addr_eq m v) refl

  -- What `run` sends for an answer of the spa to a client.
  abbrev pub answer_effects :
      PortForward A → Bytes → NetworkPackage → NetworkPackageData → A → List (Effect A)
  answer_effects f bytes msg content addr =
      when f.has_dump (send_dump (to (client addr)) content)
      ++ (send_client bytes addr ∷ when (f.has_pipe && is_kind_push_status content) (send_pipe msg))

  -- With agreeing maps and a socket for clients: a client's package for the spa goes to the spa
  -- as the bytes it is, and the spa's next answer to the id that it came from goes, as the bytes
  -- it is, to the address that it came from, wherever that id was mapped before. What else is
  -- sent, to the dump and the internal pipe, is as listed.
  pub from_client-from_spa :
      (now later : ℕ) (f : PortForward A) (source_addr : A) (bytes answer src : Bytes)
      → (content reply : NetworkPackageData) (from_id : Option Bytes)
      → IsValid id_eq addr_eq f.forwards
      → f.has_clients ≡ true
      → (f' f'' : PortForward A) × (from_client id_eq addr_eq now f source_addr bytes
            (parsed (addressed (some src) (some f.id) content))
          ≡ returns (
              goes_on f' (
                when f.has_dump (send_dump (from (client source_addr)) content)
                ++ (send_spa bytes
                    ∷ when
                        (f.has_pipe && is_kind_set_status content)
                        (send_pipe (addressed (some src) (some f.id) content))))))
        × (from_spa id_eq addr_eq later f' answer (parsed (addressed from_id (some src) reply))
            ≡ returns (
                goes_on f''
                  (answer_effects f answer (addressed from_id (some src) reply) reply source_addr)))
  unfolding from_client forward_client from_spa answer_to deliver
  from_client-from_spa now later f source_addr bytes answer src content reply from_id v clients =
      let (m, p, info, e, v', at_id, cell, own, _) =
        insert-cell id_eq addr_eq now f.forwards (socket source_addr) src tt v in
      let info' : Info Bytes (ForwardAddr A) (Unit {0}) = record info { last_forward = now } in
      let m' = touched id_eq addr_eq m p info' in
      let v'' = touched-IsValid id_eq addr_eq m p info info' cell refl refl refl v' in
      let (addr, i, b, _) = v'.by_id src p at_id in
      let known : upgrade info.addr (find addr_eq info.addr m.addrs) ≡ some info.addr =
        subst
          (λ (x : Info Bytes (ForwardAddr A) (Unit {0})).
            upgrade x.addr (find addr_eq x.addr m.addrs) ≡ some x.addr)
          (eq_of_some (sym b.cell ∙ cell)) (upgrade-addr id_eq addr_eq m b) in
      let before = len-returns id_eq addr_eq f.forwards v in
      let behind = count_after-returns f.verbose m' v'' in
      (
        record f { forwards = m' },
        record f { forwards = got_reply later p info' m' },
        rw (beq_refl f.id, before, e, cell, behind) refl,
        rw (at_id, ==_refl p, known, own, clients) refl,
      )
