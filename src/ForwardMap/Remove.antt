-- ===== src/ForwardMap/Remove.antt =====
-- Removing a peer, by its id and by its address, against the abstract view: a table from a peer's
-- id to its address and context.
use mathlib.Core.Logic.{ite, if_pos, if_neg}
use intouch2_mqtt.Base.{
  ℕ, ◌≡◌, ◌≢◌, refl, ap, sym, ◌∙◌, subst, inl, inr, ◌⊎◌, Option, none, some, eq_of_some,
  Option-cases,
}
use intouch2_mqtt.Outcome.{Outcome, returns}
use intouch2_mqtt.Assoc.{find, find-erase}
use intouch2_mqtt.ForwardMap.{
  Info, ForwardMapping, get_id, drop_id, drop_addr, remove_id', remove_addr', remove_id,
  remove_addr,
}
use intouch2_mqtt.ForwardMap.Table.{unless_at, without_id, without_addr, context_at}
use intouch2_mqtt.ForwardMap.Invariant.{
  IsPeer, IsValid, without, IsPeer-without, without-IsValid, IsPeer-cell,
}

module _ {I A T : Type 0} (id_eq : Discrete I) (addr_eq : Discrete A) where
  abbrev pub peer_info : Option (Info I A T) → Option (A × Option T)
  peer_info none = none
  peer_info (some info) = some (info.addr, info.context)

  -- The abstract view.
  unfoldable pub peers : ForwardMapping I A T → I → Option (A × Option T)
  unfolding get_id
  peers m id = peer_info (get_id id_eq addr_eq m id)

  pub peers_of_IsPeer :
      (m : ForwardMapping I A T) {id : I} {addr : A} {p : ℕ} {info : Info I A T}
      → IsPeer id_eq addr_eq m id addr p info
      → peers m id ≡ some (addr, info.context)
  unfolding peers
  peers_of_IsPeer m {info = info} a =
      rw (a.at_id, a.cell) (ap (λ x. some (x, info.context)) a.own_addr)

  pub peers_absent :
      (m : ForwardMapping I A T) (id : I) → find id_eq id m.ids ≡ none → peers m id ≡ none
  unfolding peers
  peers_absent m id h = rw h

  -- Without a peer, the table is what it was, less the peer's line.
  pub peers-without :
      (m : ForwardMapping I A T) {id : I} {addr : A} {p : ℕ} {info : Info I A T} (j : I)
      → IsPeer id_eq addr_eq m id addr p info
      → IsValid id_eq addr_eq m
      → peers (without id_eq addr_eq m id addr p info) j ≡ ite (id_eq j id) none (peers m j)
  peers-without m {id} {addr} {p} {info} j a v = elim (id_eq j id) [
    | yes e ↦
        rw (if_pos (id_eq j id) e)
          (peers_absent _ j (find-erase id_eq j id m.ids ∙ if_pos (id_eq j id) e _ _))
    | no other ↦ rw (if_neg (id_eq j id) other) (elim (Option-cases (find id_eq j m.ids)) [
      | inl absent ↦
          peers_absent _ j (find-erase id_eq j id m.ids ∙ if_neg (id_eq j id) other _ _ ∙ absent)
          ∙ sym (peers_absent m j absent)
      | inr (q, found) ↦
          let (addr', info', b, live) = v.by_id j q found in
          peers_of_IsPeer _ (IsPeer-without id_eq addr_eq m a b other) ∙ sym (peers_of_IsPeer m b)
    ])
  ]

  drop_id-without :
      (m : ForwardMapping I A T) {id : I} {addr : A} {p : ℕ} {info : Info I A T} (c : T)
      → IsPeer id_eq addr_eq m id addr p info
      → info.context ≡ some c
      → drop_id id_eq addr_eq m id p
        ≡ returns (without id_eq addr_eq m id addr p info, some (c, addr, id))
  unfolding drop_id
  drop_id-without m {info = info} c a live = rw a.cell (rw (a.own_addr, a.at_addr) (rw live))

  drop_addr-without :
      (m : ForwardMapping I A T) {id : I} {addr : A} {p : ℕ} {info : Info I A T} (c : T)
      → IsPeer id_eq addr_eq m id addr p info
      → info.context ≡ some c
      → drop_addr id_eq addr_eq m addr p
        ≡ returns (without id_eq addr_eq m id addr p info, some (c, addr, id))
  unfolding drop_addr
  drop_addr-without m {info = info} c a live = rw a.cell (rw (a.own_id, a.at_id) (rw live))

  same_addr :
      (m : ForwardMapping I A T) {id id' : I} {addr addr' : A} {p q : ℕ} {info info' : Info I A T}
      → IsPeer id_eq addr_eq m id' addr' q info'
      → IsPeer id_eq addr_eq m id addr p info
      → addr' ≡ addr
      → id' ≡ id
  same_addr m {id' = id'} {addr' = addr'} {p = p} {q = q} {info' = info'} b a e =
      let same : q ≡ p =
        eq_of_some (sym b.at_addr ∙ ap (λ x. find addr_eq x m.addrs) e ∙ a.at_addr) in
      (IsPeer-cell id_eq addr_eq m (subst (λ r. IsPeer id_eq addr_eq m id' addr' r info') same b)
        a).0

  held :
      (m : ForwardMapping I A T) {id : I} {addr addr' : A} {p : ℕ} {info : Info I A T}
      → IsPeer id_eq addr_eq m id addr' p info
      → find addr_eq addr m.addrs ≡ none
      → addr' ≢ addr
  held m b absent e = cc (b.at_addr, absent, ap (λ x. find addr_eq x m.addrs) e)

  context_live : (info : Info I A T) → info.context ≢ none → (c : T) × (info.context ≡ some c)
  context_live info live = elim (Option-cases info.context) [
    | inl dead ↦ absurd (live dead)
    | inr known ↦ known
  ]

  peer_live :
      (m : ForwardMapping I A T) {id : I} {addr : A} {p : ℕ} {info : Info I A T}
      → IsPeer id_eq addr_eq m id addr p info
      → IsValid id_eq addr_eq m
      → (c : T) × (info.context ≡ some c)
  peer_live m {id} {p = p} {info = info} a v =
      let (addr', info', b, live) = v.by_id id p a.at_id in
      let same = eq_of_some (sym b.cell ∙ a.cell) in
      context_live info (λ dead. live (ap (λ (i : Info I A T). i.context) same ∙ dead))

  -- The line of one peer is that of its address, in both views of the table.
  pub unless_at-peers :
      (m : ForwardMapping I A T) {id : I} {addr : A} {p : ℕ} {info : Info I A T} (j : I)
      → IsPeer id_eq addr_eq m id addr p info
      → IsValid id_eq addr_eq m
      → without_id id_eq (peers m) id j ≡ without_addr addr_eq (peers m) addr j
  unless_at-peers m {id} {addr} {info = info} j a v = elim (id_eq j id) [
    | yes e ↦
        if_pos (id_eq j id) e _ _
        ∙ sym (
            ap (λ x. unless_at addr_eq addr (peers m x)) e
            ∙ ap (unless_at addr_eq addr) (peers_of_IsPeer m a)
            ∙ if_pos (addr_eq addr addr) refl _ _)
    | no other ↦ if_neg (id_eq j id) other _ _ ∙ elim (Option-cases (find id_eq j m.ids)) [
      | inl absent ↦ rw (peers_absent m j absent)
      | inr (q, found) ↦
          let (addr', info', b, live) = v.by_id j q found in
          rw (peers_of_IsPeer m b)
            (sym (if_neg (addr_eq addr' addr) (λ e. other (same_addr m b a e)) _ _))
    ]
  ]

  remove_id'-absent :
      (m : ForwardMapping I A T) (id : I)
      → find id_eq id m.ids ≡ none
      → remove_id' id_eq addr_eq m id ≡ returns (m, none)
  unfolding remove_id'
  remove_id'-absent m id h = rw (h, remove_id')

  remove_id'-peer :
      (m : ForwardMapping I A T) {id : I} {addr : A} {p : ℕ} {info : Info I A T} (c : T)
      → IsPeer id_eq addr_eq m id addr p info
      → info.context ≡ some c
      → remove_id' id_eq addr_eq m id
        ≡ returns (without id_eq addr_eq m id addr p info, some (c, addr, id))
  unfolding remove_id'
  remove_id'-peer m c a live = rw (a.at_id, remove_id') (drop_id-without m c a live)

  remove_addr'-absent :
      (m : ForwardMapping I A T) (addr : A)
      → find addr_eq addr m.addrs ≡ none
      → remove_addr' id_eq addr_eq m addr ≡ returns (m, none)
  unfolding remove_addr'
  remove_addr'-absent m addr h = rw (h, remove_addr')

  remove_addr'-peer :
      (m : ForwardMapping I A T) {id : I} {addr : A} {p : ℕ} {info : Info I A T} (c : T)
      → IsPeer id_eq addr_eq m id addr p info
      → info.context ≡ some c
      → remove_addr' id_eq addr_eq m addr
        ≡ returns (without id_eq addr_eq m id addr p info, some (c, addr, id))
  unfolding remove_addr'
  remove_addr'-peer m c a live = rw (a.at_addr, remove_addr') (drop_addr-without m c a live)

  -- Nothing stands at an address that the map does not hold.
  pub without_addr_absent :
      (m : ForwardMapping I A T) (addr : A) (j : I)
      → find addr_eq addr m.addrs ≡ none
      → IsValid id_eq addr_eq m
      → without_addr addr_eq (peers m) addr j ≡ peers m j
  without_addr_absent m addr j absent v = elim (Option-cases (find id_eq j m.ids)) [
    | inl none' ↦ rw (peers_absent m j none')
    | inr (q, found) ↦
        let (addr', info', b, live) = v.by_id j q found in
        rw (peers_of_IsPeer m b) (if_neg (addr_eq addr' addr) (λ e. held m b absent e) _ _)
  ]

  pub without_id_absent :
      (m : ForwardMapping I A T) (id j : I)
      → find id_eq id m.ids ≡ none
      → without_id id_eq (peers m) id j ≡ peers m j
  without_id_absent m id j absent = elim (id_eq j id) [
    | yes e ↦
        if_pos (id_eq j id) e _ _ ∙ sym (peers_absent m j (ap (λ x. find id_eq x m.ids) e ∙ absent))
    | no other ↦ if_neg (id_eq j id) other _ _
  ]

  -- A live peer that was there, and the state without it.
  abbrev pub Removed :
      ForwardMapping I A T → Outcome (ForwardMapping I A T × Option (T × A × I)) → I → A → Type 0
  Removed m r id addr =
      (p : ℕ) × (info : Info I A T) × (c : T) × IsPeer id_eq addr_eq m id addr p info
      × (info.context ≡ some c)
      × (r ≡ returns (without id_eq addr_eq m id addr p info, some (c, addr, id)))

  pub remove_id'_cases :
      (m : ForwardMapping I A T) (id : I)
      → IsValid id_eq addr_eq m
      → ((find id_eq id m.ids ≡ none) × (remove_id' id_eq addr_eq m id ≡ returns (m, none)))
        ⊎ ((addr : A) × Removed m (remove_id' id_eq addr_eq m id) id addr)
  remove_id'_cases m id v = elim (Option-cases (find id_eq id m.ids)) [
    | inl absent ↦ inl (absent, remove_id'-absent m id absent)
    | inr (p, found) ↦
        let (addr, info, a, live) = v.by_id id p found in
        let (c, known) = context_live info live in
        inr (addr, (p, info, c, a, known, remove_id'-peer m c a known))
  ]

  pub remove_addr'_cases :
      (m : ForwardMapping I A T) (addr : A)
      → IsValid id_eq addr_eq m
      → ((find addr_eq addr m.addrs ≡ none)
          × (remove_addr' id_eq addr_eq m addr ≡ returns (m, none)))
        ⊎ ((id : I) × Removed m (remove_addr' id_eq addr_eq m addr) id addr)
  remove_addr'_cases m addr v = elim (Option-cases (find addr_eq addr m.addrs)) [
    | inl absent ↦ inl (absent, remove_addr'-absent m addr absent)
    | inr (p, found) ↦
        let (id, info, a) = v.by_addr addr p found in
        let (c, known) = peer_live m a v in
        inr (id, (p, info, c, a, known, remove_addr'-peer m c a known))
  ]

  -- In a mapping whose two maps agree, removing a peer by its id never panics, gives the peer's
  -- context, keeps the maps in agreement, and takes exactly its line out of the table.
  pub remove_id_lem :
      (m : ForwardMapping I A T) (id : I)
      → IsValid id_eq addr_eq m
      → (m' : ForwardMapping I A T) × (remove_id id_eq addr_eq m id
          ≡ returns (m', context_at (peers m id)))
        × IsValid id_eq addr_eq m'
        × ((j : I) → peers m' j ≡ without_id id_eq (peers m) id j)
  unfolding remove_id
  remove_id_lem m id v = elim (remove_id'_cases m id v) [
    | inl (absent, e) ↦
        (m, rw (e, peers_absent m id absent), v, λ j. sym (without_id_absent m id j absent))
    | inr (addr, (p, info, c, a, known, e)) ↦ (
      without id_eq addr_eq m id addr p info,
      rw (e, peers_of_IsPeer m a, known),
      without-IsValid id_eq addr_eq m a v,
      λ j. peers-without m j a v,
    )
  ]

  -- In a mapping whose two maps agree, removing a peer by its address never panics, keeps the
  -- maps in agreement, and takes exactly the line at that address out of the table.
  pub remove_addr_lem :
      (m : ForwardMapping I A T) (addr : A)
      → IsValid id_eq addr_eq m
      → (m' : ForwardMapping I A T) × (c : Option T) × (remove_addr id_eq addr_eq m addr
          ≡ returns (m', c))
        × IsValid id_eq addr_eq m'
        × ((j : I) → peers m' j ≡ without_addr addr_eq (peers m) addr j)
  unfolding remove_addr
  remove_addr_lem m addr v = elim (remove_addr'_cases m addr v) [
    | inl (absent, e) ↦ (m, none, rw e, v, λ j. sym (without_addr_absent m addr j absent v))
    | inr (id, (p, info, c, a, known, e)) ↦ (
      without id_eq addr_eq m id addr p info,
      some c,
      rw e,
      without-IsValid id_eq addr_eq m a v,
      λ j. peers-without m j a v ∙ unless_at-peers m j a v,
    )
  ]
