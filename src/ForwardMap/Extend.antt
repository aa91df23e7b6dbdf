-- ===== src/ForwardMap/Extend.antt =====
-- A forward mapping with one peer more.
use mathlib.Core.Logic.{ite, if_pos, if_neg}
use intouch2_mqtt.Base.{
  ℕ, ◌+◌, ◌<◌, ◌≡◌, ◌≢◌, refl, ap, sym, ◌∙◌, subst, inl, inr, none, some, arith, Option-cases,
  ==_ne, ==_refl,
}
use intouch2_mqtt.Assoc.{find, put, find-put, Unique-put, length-put, find-put-some}
use intouch2_mqtt.ForwardMap.{Info, ForwardMapping, update}
use intouch2_mqtt.ForwardMap.Invariant.{IsPeer, IsValid}
use intouch2_mqtt.ForwardMap.Remove.{peers, peers_of_IsPeer, peers_absent}

module _ {I A T : Type 0} (id_eq : Discrete I) (addr_eq : Discrete A) where
  abbrev pub new_info : ℕ → A → I → T → Info I A T
  new_info now addr id c = record {
    id = id;
    addr = addr;
    last_forward = now;
    last_reply = none;
    context = some c;
  }

  abbrev pub extended : ℕ → ForwardMapping I A T → A → I → T → ForwardMapping I A T
  extended now m addr id c = record m {
    ids = put id_eq id m.fresh m.ids;
    addrs = put addr_eq addr m.fresh m.addrs;
    cells = update m.cells m.fresh (some (new_info now addr id c));
    fresh = m.fresh + 1;
  }

  pub IsPeer-new :
      (now : ℕ) (m : ForwardMapping I A T) (addr : A) (id : I) (c : T)
      → IsPeer id_eq addr_eq (extended now m addr id c) id addr m.fresh (new_info now addr id c)
  IsPeer-new now m addr id c = record {
    at_id = find-put id_eq id id m.fresh m.ids ∙ if_pos (id_eq id id) refl _ _;
    at_addr = find-put addr_eq addr addr m.fresh m.addrs ∙ if_pos (addr_eq addr addr) refl _ _;
    cell = rw (==_refl m.fresh);
    own_id = refl;
    own_addr = refl;
  }

  -- The peers that are there keep their cells.
  IsPeer-extended :
      (now : ℕ) (m : ForwardMapping I A T) (addr : A) (id : I) (c : T) {id' : I} {addr' : A} {q : ℕ}
      {info : Info I A T}
      → find id_eq id m.ids ≡ none
      → find addr_eq addr m.addrs ≡ none
      → q < m.fresh
      → IsPeer id_eq addr_eq m id' addr' q info
      → IsPeer id_eq addr_eq (extended now m addr id c) id' addr' q info
  IsPeer-extended now m addr id c {id'} {addr'} {q} free_id free_addr below b = record {
    at_id =
        find-put id_eq id' id m.fresh m.ids
        ∙ if_neg (id_eq id' id) (λ e. cc (b.at_id, free_id, ap (λ x. find id_eq x m.ids) e)) _ _
        ∙ b.at_id;
    at_addr =
        find-put addr_eq addr' addr m.fresh m.addrs
        ∙ if_neg (addr_eq addr' addr)
            (λ e. cc (b.at_addr, free_addr, ap (λ x. find addr_eq x m.addrs) e)) _ _
        ∙ b.at_addr;
    cell = rw (==_ne m.fresh q (omega arith)) b.cell;
    own_id = b.own_id;
    own_addr = b.own_addr;
  }

  pub extended-IsValid :
      (now : ℕ) (m : ForwardMapping I A T) (addr : A) (id : I) (c : T)
      → find id_eq id m.ids ≡ none
      → find addr_eq addr m.addrs ≡ none
      → IsValid id_eq addr_eq m
      → IsValid id_eq addr_eq (extended now m addr id c)
  extended-IsValid now m addr id c free_id free_addr v = record {
    ids_unique = Unique-put id_eq id m.fresh m.ids v.ids_unique;
    addrs_unique = Unique-put addr_eq addr m.fresh m.addrs v.addrs_unique;
    by_id = λ id' q h. elim (find-put-some id_eq id' id m.fresh m.ids h) [
      | inl (e, f) ↦ (addr, new_info now addr id c, here_id id' q e f, live)
      | inr (other, found) ↦
          let (addr', info, b, alive) = v.by_id id' q found in
          (
            addr',
            info,
            IsPeer-extended now m addr id c free_id free_addr (v.below id' q found) b,
            alive,
          )
    ];
    by_addr = λ addr' q h. elim (find-put-some addr_eq addr' addr m.fresh m.addrs h) [
      | inl (e, f) ↦ (id, new_info now addr id c, here_addr addr' q e f)
      | inr (other, found) ↦
          let (id', info, b) = v.by_addr addr' q found in
          (id', info, IsPeer-extended now m addr id c free_id free_addr (v.below id' q b.at_id) b)
    ];
    below = λ id' q h. elim (find-put-some id_eq id' id m.fresh m.ids h) [
      | inl (e, f) ↦ omega arith
      | inr (other, found) ↦ omega (arith, v.below id' q found)
    ];
    even = omega (
      arith,
      length-put id_eq id m.fresh m.ids free_id,
      length-put addr_eq addr m.fresh m.addrs free_addr,
      v.even,
    );
  }
    where
      new : IsPeer id_eq addr_eq (extended now m addr id c) id addr m.fresh (new_info now addr id c)
      new = IsPeer-new now m addr id c

      live : some c ≢ none
      live = cc

      here_id :
          (id' : I) (q : ℕ)
          → id' ≡ id
          → m.fresh ≡ q
          → IsPeer id_eq addr_eq (extended now m addr id c) id' addr q (new_info now addr id c)
      here_id id' q e f =
          subst
            (λ j. IsPeer id_eq addr_eq (extended now m addr id c) j addr q (new_info now addr id c))
            (sym e)
            (subst
              (λ r.
                IsPeer id_eq addr_eq (extended now m addr id c) id addr r (new_info now addr id c))
              f new)

      here_addr :
          (addr' : A) (q : ℕ)
          → addr' ≡ addr
          → m.fresh ≡ q
          → IsPeer id_eq addr_eq (extended now m addr id c) id addr' q (new_info now addr id c)
      here_addr addr' q e f =
          subst
            (λ a. IsPeer id_eq addr_eq (extended now m addr id c) id a q (new_info now addr id c))
            (sym e)
            (subst
              (λ r.
                IsPeer id_eq addr_eq (extended now m addr id c) id addr r (new_info now addr id c))
              f new)

  pub peers-extended :
      (now : ℕ) (m : ForwardMapping I A T) (addr : A) (id : I) (c : T) (j : I)
      → find id_eq id m.ids ≡ none
      → find addr_eq addr m.addrs ≡ none
      → IsValid id_eq addr_eq m
      → peers id_eq addr_eq (extended now m addr id c) j
        ≡ ite (id_eq j id) (some (addr, some c)) (peers id_eq addr_eq m j)
  peers-extended now m addr id c j free_id free_addr v = elim (id_eq j id) [
    | yes e ↦
        ap (peers id_eq addr_eq (extended now m addr id c)) e
        ∙ peers_of_IsPeer id_eq addr_eq _ (IsPeer-new now m addr id c)
        ∙ sym (if_pos (id_eq j id) e _ _)
    | no other ↦ elim (Option-cases (find id_eq j m.ids)) [
      | inl absent ↦
          peers_absent id_eq addr_eq _ j
            (find-put id_eq j id m.fresh m.ids ∙ if_neg (id_eq j id) other _ _ ∙ absent)
          ∙ sym (if_neg (id_eq j id) other _ _ ∙ peers_absent id_eq addr_eq m j absent)
      | inr (q, found) ↦
          let (addr', info, b, live) = v.by_id j q found in
          peers_of_IsPeer id_eq addr_eq _
            (IsPeer-extended now m addr id c free_id free_addr (v.below j q found) b)
          ∙ sym (if_neg (id_eq j id) other _ _ ∙ peers_of_IsPeer id_eq addr_eq m b)
    ]
  ]
