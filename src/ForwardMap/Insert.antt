-- ===== src/ForwardMap/Insert.antt =====
-- Inserting a peer, against the abstract view.
use mathlib.Core.Logic.{ite, if_pos, if_neg}
use intouch2_mqtt.Base.{
  ℕ, ◌≡◌, ◌≢◌, ap, sym, ◌∙◌, subst, true, inl, inr, Option, none, some, arith, Option-cases,
  Bool-cases, ==_refl,
}
use intouch2_mqtt.Outcome.{returns}
use intouch2_mqtt.Assoc.{find, erase, find-erase_self, find-erase-none}
use intouch2_mqtt.ForwardMap.{
  ForwardMapping, is_same_cell, reuse_addr, remove_and_reuse_arcs, insert,
}
use intouch2_mqtt.ForwardMap.Table.{unless_at, without_addr, with_peer}
use intouch2_mqtt.ForwardMap.Invariant.{IsPeer, IsValid, IsPeer-cell, without, without-IsValid}
use intouch2_mqtt.ForwardMap.Remove.{
  peers, peers_of_IsPeer, peers_absent, peers-without, unless_at-peers, without_addr_absent,
  remove_id'_cases, remove_addr'_cases,
}
use intouch2_mqtt.ForwardMap.Extend.{extended, IsPeer-new, extended-IsValid, peers-extended}

module _ {I A T : Type 0} (id_eq : Discrete I) (addr_eq : Discrete A) where
  -- What is left when the way is free for a peer.
  record IsCleared (m : ForwardMapping I A T) (addr : A) (id : I) (m' : ForwardMapping I A T)
      : Type 0 where
    valid : IsValid id_eq addr_eq m'
    free_id : find id_eq id m'.ids ≡ none
    free_addr : find addr_eq addr m'.addrs ≡ none
    kept :
        (j : I)
        → peers id_eq addr_eq m' j
          ≡ ite (id_eq j id) none (unless_at addr_eq addr (peers id_eq addr_eq m j))

  reuse_addr_lem :
      (m : ForwardMapping I A T) (addr : A) (id : I)
      → IsValid id_eq addr_eq m
      → find id_eq id m.ids ≡ none
      → (m' : ForwardMapping I A T) × (reuse_addr id_eq addr_eq m addr id ≡ returns (m', addr, id))
        × IsValid id_eq addr_eq m'
        × (find id_eq id m'.ids ≡ none)
        × (find addr_eq addr m'.addrs ≡ none)
        × ((j : I) → peers id_eq addr_eq m' j ≡ without_addr addr_eq (peers id_eq addr_eq m) addr j)
  unfolding reuse_addr
  reuse_addr_lem m addr id v free = elim (remove_addr'_cases id_eq addr_eq m addr v) [
    | inl (absent, e) ↦
        (m, rw e, v, free, absent, λ j. sym (without_addr_absent id_eq addr_eq m addr j absent v))
    | inr (id', (p, info, c, a, known, e)) ↦ (
      without id_eq addr_eq m id' addr p info,
      rw e,
      without-IsValid id_eq addr_eq m a v,
      find-erase-none id_eq id id' m.ids free,
      find-erase_self addr_eq addr m.addrs,
      λ j. peers-without id_eq addr_eq m j a v ∙ unless_at-peers id_eq addr_eq m j a v,
    )
  ]

  clear_absent :
      (m : ForwardMapping I A T) (addr : A) (id j : I)
      → find id_eq id m.ids ≡ none
      → ite (id_eq j id) none (unless_at addr_eq addr (peers id_eq addr_eq m j))
        ≡ unless_at addr_eq addr (peers id_eq addr_eq m j)
  clear_absent m addr id j absent = elim (id_eq j id) [
    | yes e ↦
        if_pos (id_eq j id) e _ _
        ∙ sym (
            ap (unless_at addr_eq addr)
              (peers_absent id_eq addr_eq m j (ap (λ x. find id_eq x m.ids) e ∙ absent)))
    | no other ↦ if_neg (id_eq j id) other _ _
  ]

  clear_same :
      (id j : I) (x y : Option (A × Option T))
      → ite (id_eq j id) none x ≡ y
      → ite (id_eq j id) none x ≡ ite (id_eq j id) none y
  clear_same id j x y h = elim (id_eq j id) [
    | yes e ↦ if_pos (id_eq j id) e _ _ ∙ sym (if_pos (id_eq j id) e _ _)
    | no other ↦ h ∙ sym (if_neg (id_eq j id) other _ _)
  ]

  clear_both :
      (addr : A) (id j : I) (x : Option (A × Option T))
      → unless_at addr_eq addr (ite (id_eq j id) none x)
        ≡ ite (id_eq j id) none (unless_at addr_eq addr x)
  clear_both addr id j x = elim (id_eq j id) [
    | yes e ↦
        ap (unless_at addr_eq addr) (if_pos (id_eq j id) e _ _) ∙ sym (if_pos (id_eq j id) e _ _)
    | no other ↦
        ap (unless_at addr_eq addr) (if_neg (id_eq j id) other _ _)
        ∙ sym (if_neg (id_eq j id) other _ _)
  ]

  -- In front of an insertion: the id and the address become free, whoever had them is gone, and
  -- the rest is kept.
  remove_and_reuse_arcs_lem :
      (m : ForwardMapping I A T) (addr : A) (id : I)
      → IsValid id_eq addr_eq m
      → (m' : ForwardMapping I A T) × (remove_and_reuse_arcs id_eq addr_eq m addr id
          ≡ returns (m', addr, id))
        × IsCleared m addr id m'
  unfolding remove_and_reuse_arcs
  remove_and_reuse_arcs_lem m addr id v = elim (remove_id'_cases id_eq addr_eq m id v) [
    | inl (absent, e) ↦
        let (m', r, v', free, free', kept) = reuse_addr_lem m addr id v absent in
        (
          m',
          rw e r,
          record {
            valid = v';
            free_id = free;
            free_addr = free';
            kept = λ j. kept j ∙ sym (clear_absent m addr id j absent);
          },
        )
    | inr (addr', (p, info, c, a, known, e)) ↦
        let w = without id_eq addr_eq m id addr' p info in
        let valid' = without-IsValid id_eq addr_eq m a v in
        let free = find-erase_self id_eq id m.ids in
        elim (addr_eq addr' addr) [
          | yes same ↦ (
            w,
            rw e (if_pos (addr_eq addr' addr) same _ _ ∙ ap (λ x. returns (w, x, id)) same),
            record {
              valid = valid';
              free_id = free;
              free_addr =
                  ap (λ x. find addr_eq x (erase addr_eq addr' m.addrs)) (sym same)
                  ∙ find-erase_self addr_eq addr' m.addrs;
              kept = λ j.
                  peers-without id_eq addr_eq m j a v
                  ∙ clear_same id j (peers id_eq addr_eq m j) _ (
                      unless_at-peers id_eq addr_eq m j a v
                      ∙ ap (λ x. unless_at addr_eq x (peers id_eq addr_eq m j)) same);
            },
          )
          | no other ↦
              let (m', r, v', free'', free', kept) = reuse_addr_lem w addr id valid' free in
              (
                m',
                rw e (if_neg (addr_eq addr' addr) other _ _ ∙ r),
                record {
                  valid = v';
                  free_id = free'';
                  free_addr = free';
                  kept = λ j.
                      kept j
                      ∙ ap (unless_at addr_eq addr) (peers-without id_eq addr_eq m j a v)
                      ∙ clear_both addr id j (peers id_eq addr_eq m j);
                },
              )
        ]
  ]

  same_cell :
      (m : ForwardMapping I A T) (addr : A) (id : I)
      → IsValid id_eq addr_eq m
      → is_same_cell (find addr_eq addr m.addrs) (find id_eq id m.ids) ≡ true
      → (c : Option T) × (peers id_eq addr_eq m id ≡ some (addr, c))
  same_cell m addr id v h = elim (Option-cases (find id_eq id m.ids)) [
    | inl absent ↦ absurd (ground arith)
    | inr (p, found) ↦ elim (Option-cases (find addr_eq addr m.addrs)) [
      | inl nowhere ↦ absurd (ground arith)
      | inr (q, held) ↦
          let same : q ≡ p = ground arith in
          let (addr', info, b, live) = v.by_id id p found in
          let (id', info', b') = v.by_addr addr q held in
          let moved = subst (λ r. IsPeer id_eq addr_eq m id' addr r info') same b' in
          (
            info.context,
            peers_of_IsPeer id_eq addr_eq m b
                ∙ ap (λ x. some (x, info.context)) (IsPeer-cell id_eq addr_eq m b moved).1,
          )
    ]
  ]

  eq_of_line :
      {a b : A} {c d : Option T}
      → ◌≡◌ {A = Option (A × Option T)} (some (a, c)) (some (b, d))
      → a ≡ b
  eq_of_line h = cc

  with_cleared :
      (m : ForwardMapping I A T) (addr : A) (id : I) (c : T) (j : I) (x : Option (A × Option T))
      → x ≡ ite (id_eq j id) none (unless_at addr_eq addr (peers id_eq addr_eq m j))
      → ite (id_eq j id) (some (addr, some c)) x
        ≡ with_peer id_eq addr_eq (peers id_eq addr_eq m) addr id c j
  with_cleared m addr id c j x h = elim (id_eq j id) [
    | yes e ↦ if_pos (id_eq j id) e _ _ ∙ sym (if_pos (id_eq j id) e _ _)
    | no other ↦
        if_neg (id_eq j id) other _ _
        ∙ h
        ∙ if_neg (id_eq j id) other _ _
        ∙ sym (if_neg (id_eq j id) other _ _)
  ]

  -- In a mapping whose two maps agree, inserting a peer that the table does not have at that
  -- address never panics. Afterwards the maps agree, the peer's line stands in the table, every
  -- other line with its id or its address is gone, and all other lines are as they were.
  pub insert_new :
      (now : ℕ) (m : ForwardMapping I A T) (addr : A) (id : I) (c : T)
      → IsValid id_eq addr_eq m
      → ((c' : Option T) → peers id_eq addr_eq m id ≢ some (addr, c'))
      → (m' : ForwardMapping I A T) × (p : ℕ) × (insert id_eq addr_eq now m addr id c
          ≡ returns (m', some p))
        × IsValid id_eq addr_eq m'
        × (find id_eq id m'.ids ≡ some p)
        × ((j : I)
            → peers id_eq addr_eq m' j
              ≡ with_peer id_eq addr_eq (peers id_eq addr_eq m) addr id c j)
  unfolding insert
  insert_new now m addr id c v away =
      elim (Bool-cases (is_same_cell (find addr_eq addr m.addrs) (find id_eq id m.ids))) [
        | inl same ↦ let (c', at) = same_cell m addr id v same in absurd (away c' at)
        | inr different ↦
            let (m', r, k) = remove_and_reuse_arcs_lem m addr id v in
            (
              extended id_eq addr_eq now m' addr id c,
              m'.fresh,
              rw different (rw r),
              extended-IsValid id_eq addr_eq now m' addr id c k.free_id k.free_addr k.valid,
              (IsPeer-new id_eq addr_eq now m' addr id c).at_id,
              λ j.
                  peers-extended id_eq addr_eq now m' addr id c j k.free_id k.free_addr k.valid
                  ∙ with_cleared m addr id c j (peers id_eq addr_eq m' j) (k.kept j),
            )
      ]

  -- In a mapping whose two maps agree, inserting a peer that the table has at that address
  -- changes nothing, its old context and its times included, and gives the cell of its id.
  pub insert_known :
      (now : ℕ) (m : ForwardMapping I A T) (addr : A) (id : I) (c : T) {c' : Option T}
      → IsValid id_eq addr_eq m
      → peers id_eq addr_eq m id ≡ some (addr, c')
      → (p : ℕ) × (insert id_eq addr_eq now m addr id c ≡ returns (m, some p))
        × (find id_eq id m.ids ≡ some p)
  unfolding insert
  insert_known now m addr id c v at = elim (Option-cases (find id_eq id m.ids)) [
    | inl absent ↦ absurd (cc (peers_absent id_eq addr_eq m id absent, at))
    | inr (p, found) ↦
        let (addr', info, b, live) = v.by_id id p found in
        let same : addr' ≡ addr = eq_of_line (sym (peers_of_IsPeer id_eq addr_eq m b) ∙ at) in
        let held = sym (ap (λ x. find addr_eq x m.addrs) same) ∙ b.at_addr in
        (p, rw (held, found) (rw (==_refl p)), found)
  ]
