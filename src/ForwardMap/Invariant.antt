-- ===== src/ForwardMap/Invariant.antt =====
-- What it means that the two maps agree, and taking a peer out of both.
use intouch2_mqtt.Base.{
  ℕ, ◌<◌, ◌≡◌, ◌≢◌, refl, ap, sym, ◌∙◌, subst, none, some, arith, length, eq_of_some, ==_eq, ==_ne,
}
use intouch2_mqtt.Assoc.{
  find, erase, Unique, find-erase_ne, find-erase-some, Unique-erase, length-erase,
}
use intouch2_mqtt.ForwardMap.{Info, ForwardMapping, update, empty, upgrade, len}
use intouch2_mqtt.Outcome.{returns}

module _ {I A T : Type 0} (id_eq : Discrete I) (addr_eq : Discrete A) where
  -- The peer `id` at `addr` has the cell `p`.
  pub record IsPeer (m : ForwardMapping I A T) (id : I) (addr : A) (p : ℕ) (info : Info I A T)
      : Type 0 where
    pub at_id : find id_eq id m.ids ≡ some p
    pub at_addr : find addr_eq addr m.addrs ≡ some p
    pub cell : m.cells p ≡ some info
    pub own_id : info.id ≡ id
    pub own_addr : info.addr ≡ addr

  pub record IsValid (m : ForwardMapping I A T) : Type 0 where
    pub ids_unique : Unique id_eq m.ids
    pub addrs_unique : Unique addr_eq m.addrs
    pub by_id :
        (id : I) (p : ℕ)
        → find id_eq id m.ids ≡ some p
        → (addr : A) × (info : Info I A T) × IsPeer m id addr p info × (info.context ≢ none)
    pub by_addr :
        (addr : A) (p : ℕ)
        → find addr_eq addr m.addrs ≡ some p
        → (id : I) × (info : Info I A T) × IsPeer m id addr p info
    pub below : (id : I) (p : ℕ) → find id_eq id m.ids ≡ some p → p < m.fresh
    pub even : length m.ids ≡ length m.addrs

  pub empty-IsValid : IsValid empty
  unfolding find
  empty-IsValid = record {
    ids_unique = tt;
    addrs_unique = tt;
    by_id = λ id p h. absurd (cc);
    by_addr = λ addr p h. absurd (cc);
    below = λ id p h. absurd (cc);
    even = refl;
  }

  -- The mapping after a peer is taken out of both maps, and its context out of the cell.
  abbrev pub without : ForwardMapping I A T → I → A → ℕ → Info I A T → ForwardMapping I A T
  without m id addr p info = record m {
    ids = erase id_eq id m.ids;
    addrs = erase addr_eq addr m.addrs;
    cells = update m.cells p (some (record info { context = none }));
  }

  -- Two peers in one cell are one peer.
  pub IsPeer-cell :
      (m : ForwardMapping I A T) {id id' : I} {addr addr' : A} {p : ℕ} {info info' : Info I A T}
      → IsPeer m id addr p info
      → IsPeer m id' addr' p info'
      → (id ≡ id') × (addr ≡ addr')
  IsPeer-cell m a b =
      let same = eq_of_some (sym a.cell ∙ b.cell) in
      (
        sym a.own_id ∙ ap (λ (i : Info I A T). i.id) same ∙ b.own_id,
        sym a.own_addr ∙ ap (λ (i : Info I A T). i.addr) same ∙ b.own_addr,
      )

  -- Taking a peer out leaves the others where they are.
  pub IsPeer-without :
      (m : ForwardMapping I A T) {id id' : I} {addr addr' : A} {p q : ℕ} {info info' : Info I A T}
      → IsPeer m id addr p info
      → IsPeer m id' addr' q info'
      → id' ≢ id
      → IsPeer (without m id addr p info) id' addr' q info'
  IsPeer-without m {id} {id'} {addr} {addr'} {p} {q} {info' = info'} a b other = record {
    at_id = find-erase_ne id_eq id' id m.ids other ∙ b.at_id;
    at_addr = find-erase_ne addr_eq addr' addr m.addrs other_addr ∙ b.at_addr;
    cell = rw (==_ne p q other_cell) b.cell;
    own_id = b.own_id;
    own_addr = b.own_addr;
  }
    where
      other_cell : p ≢ q
      other_cell e =
          other (sym (IsPeer-cell m a (subst (λ r. IsPeer m id' addr' r info') (sym e) b)).0)

      other_addr : addr' ≢ addr
      other_addr e =
          other_cell
            (eq_of_some (sym a.at_addr ∙ ap (λ x. find addr_eq x m.addrs) (sym e) ∙ b.at_addr))

  pub other_id :
      (m : ForwardMapping I A T) {id id' : I} {addr addr' : A} {p q : ℕ} {info info' : Info I A T}
      → IsPeer m id addr p info
      → IsPeer m id' addr' q info'
      → addr' ≢ addr
      → id' ≢ id
  other_id m {id' = id'} {addr' = addr'} {p = p} {q = q} {info' = info'} a b other e =
      let same : p ≡ q =
        eq_of_some (sym a.at_id ∙ ap (λ x. find id_eq x m.ids) (sym e) ∙ b.at_id) in
      other (sym (IsPeer-cell m a (subst (λ r. IsPeer m id' addr' r info') (sym same) b)).1)

  -- Taking a peer out keeps the maps in agreement.
  pub without-IsValid :
      (m : ForwardMapping I A T) {id : I} {addr : A} {p : ℕ} {info : Info I A T}
      → IsPeer m id addr p info
      → IsValid m
      → IsValid (without m id addr p info)
  without-IsValid m {id} {addr} {p} {info} a v = record {
    ids_unique = Unique-erase id_eq id m.ids v.ids_unique;
    addrs_unique = Unique-erase addr_eq addr m.addrs v.addrs_unique;
    by_id = λ id' q h.
        let (other, found) = find-erase-some id_eq id' id m.ids h in
        let (addr', info', b, live) = v.by_id id' q found in
        (addr', info', IsPeer-without m a b other, live);
    by_addr = λ addr' q h.
        let (other, found) = find-erase-some addr_eq addr' addr m.addrs h in
        let (id', info', b) = v.by_addr addr' q found in
        (id', info', IsPeer-without m a b (other_id m a b other));
    below = λ id' q h. v.below id' q (find-erase-some id_eq id' id m.ids h).1;
    even = omega (
      arith,
      length-erase id_eq id p m.ids v.ids_unique a.at_id,
      length-erase addr_eq addr p m.addrs v.addrs_unique a.at_addr,
      v.even,
    );
  }

  -- Where the maps agree, `len` does not panic.
  pub len-returns :
      (m : ForwardMapping I A T) → IsValid m → len id_eq addr_eq m ≡ returns (length m.ids)
  unfolding len
  len-returns m v = rw (==_eq (length m.addrs) (length m.ids) (sym v.even)) refl

  -- The address of a peer can be upgraded.
  pub upgrade-addr :
      (m : ForwardMapping I A T) {id : I} {addr : A} {p : ℕ} {info : Info I A T}
      → IsPeer m id addr p info
      → upgrade info.addr (find addr_eq info.addr m.addrs) ≡ some info.addr
  upgrade-addr m {info = info} b =
      ap (upgrade info.addr) (ap (λ x. find addr_eq x m.addrs) b.own_addr ∙ b.at_addr)
