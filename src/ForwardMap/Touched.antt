-- ===== src/ForwardMap/Touched.antt =====
-- A change of the times in a peer's cell: `did_forward` and `got_reply` of
-- intouch2-mqtt/src/port_forward_mapping.rs.
use intouch2_mqtt.Base.{
  ℕ, ◌≡◌, refl, ap, sym, ◌∙◌, inl, inr, some, ◌==◌, ==_iff, Bool-cases, eq_of_some,
}
use intouch2_mqtt.ForwardMap.{Info, ForwardMapping, update}
use intouch2_mqtt.ForwardMap.Invariant.{IsValid, IsPeer}

module _ {I A T : Type 0} (id_eq : Discrete I) (addr_eq : Discrete A) where
  abbrev pub touched : ForwardMapping I A T → ℕ → Info I A T → ForwardMapping I A T
  touched m p info = record m { cells = update m.cells p (some info) }

  -- A peer is still one when a cell's times change.
  pub IsPeer-touched :
      (m : ForwardMapping I A T) (p : ℕ) (info info' : Info I A T)
      → m.cells p ≡ some info
      → info'.id ≡ info.id
      → info'.addr ≡ info.addr
      → info'.context ≡ info.context
      → {id : I} {addr : A} {q : ℕ} {i : Info I A T} → IsPeer id_eq addr_eq m id addr q i
      → (i' : Info I A T) × IsPeer id_eq addr_eq (touched m p info') id addr q i'
        × (i'.context ≡ i.context)
  IsPeer-touched m p info info' held si sa sc {id} {addr} {q} {i} b = elim (Bool-cases (p == q)) [
    | inl e ↦
        let here = (==_iff p q).0 e in
        let same : info ≡ i = eq_of_some (sym held ∙ ap m.cells here ∙ b.cell) in
        (
          info',
          record {
            at_id = b.at_id;
            at_addr = b.at_addr;
            cell = rw e refl;
            own_id = si ∙ ap (λ (x : Info I A T). x.id) same ∙ b.own_id;
            own_addr = sa ∙ ap (λ (x : Info I A T). x.addr) same ∙ b.own_addr;
          },
          sc ∙ ap (λ (x : Info I A T). x.context) same,
        )
    | inr e ↦ (
      i,
      record {
        at_id = b.at_id;
        at_addr = b.at_addr;
        cell = rw e b.cell;
        own_id = b.own_id;
        own_addr = b.own_addr;
      },
      refl,
    )
  ]

  pub touched-IsValid :
      (m : ForwardMapping I A T) (p : ℕ) (info info' : Info I A T)
      → m.cells p ≡ some info
      → info'.id ≡ info.id
      → info'.addr ≡ info.addr
      → info'.context ≡ info.context
      → IsValid id_eq addr_eq m
      → IsValid id_eq addr_eq (touched m p info')
  touched-IsValid m p info info' held si sa sc v = record {
    ids_unique = v.ids_unique;
    addrs_unique = v.addrs_unique;
    by_id = λ id q h.
        let (addr, i, b, live) = v.by_id id q h in
        let (i', b', c) = IsPeer-touched m p info info' held si sa sc b in
        (addr, i', b', λ dead. live (sym c ∙ dead));
    by_addr = λ addr q h.
        let (id, i, b) = v.by_addr addr q h in
        let (i', b', c) = IsPeer-touched m p info info' held si sa sc b in (id, i', b');
    below = v.below;
    even = v.even;
  }
