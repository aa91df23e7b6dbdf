-- ===== src/PortForward/Run/Peers.antt =====
-- Who is in the forwarder's mapping: the lines of its table, and what holds of every peer behind a
-- socket.
use mathlib.Core.Logic.{if_pos, if_neg}
use intouch2_mqtt.Base.{
  ℕ, ◌≡◌, ◌≢◌, ap, sym, ◌∙◌, Bool, true, false, inl, inr, ◌⊎◌, Option, none, some, List, Bytes, [],
  ◌∷◌, ◌++◌, All, Option-cases,
}
use intouch2_mqtt.Outcome.{Outcome, returns}
use intouch2_mqtt.Nom.{Nom}
use intouch2_mqtt.Framing.{panicked, diverged, parse_network_data}
use intouch2_mqtt.Assoc.{find}
use intouch2_mqtt.ForwardMap.{Info, ForwardMapping}
use intouch2_mqtt.ForwardMap.Table.{without_id}
use intouch2_mqtt.ForwardMap.Invariant.{IsValid}
use intouch2_mqtt.ForwardMap.Remove.{peers, peers_absent, peers_of_IsPeer}
use intouch2_mqtt.ForwardMap.Timeouts.{without_ids}
use intouch2_mqtt.PortForward.{
  PortForward, ForwardAddr, socket, Effect, send_client, when, Turn, goes_on, invalid_spa_name,
}
use intouch2_mqtt.ForwardMap.Touched.{touched, touched-IsValid, IsPeer-touched}
use intouch2_mqtt.PortForward.Run.{
  SocketData, from_pipe_data, from_client_data, from_spa_data, timeout_data, pipe_died,
}

module _ {I A T : Type 0} (id_eq : Discrete I) (addr_eq : Discrete A) where
  abbrev line : A → Option T → Option (A × Option T)
  line a c = some (a, c)

  -- A line of the table behind a change of a cell's times was there before.
  pub peers-touched :
      (m : ForwardMapping I A T) (p : ℕ) (info info' : Info I A T)
      → m.cells p ≡ some info
      → info'.id ≡ info.id
      → info'.addr ≡ info.addr
      → info'.context ≡ info.context
      → IsValid id_eq addr_eq m
      → (j : I) (a : A) (c : Option T)
      → peers id_eq addr_eq (touched id_eq addr_eq m p info') j ≡ some (a, c)
      → (old : Option T) × (peers id_eq addr_eq m j ≡ some (a, old))
  peers-touched m p info info' held si sa sc v j a c h = elim (Option-cases (find id_eq j m.ids)) [
    | inl absent ↦ absurd (
        none_ne (a, c)
          (sym (peers_absent id_eq addr_eq (touched id_eq addr_eq m p info') j absent) ∙ h))
    | inr (q, found) ↦
        let (addr, i, b, live) = v.by_id j q found in
        let (i', b', _) = IsPeer-touched id_eq addr_eq m p info info' held si sa sc b in
        (
          i.context,
          peers_of_IsPeer id_eq addr_eq m b
              ∙ ap (λ (x : A). line x i.context)
                  (pair_left addr a i'.context c
                    (sym (peers_of_IsPeer id_eq addr_eq (touched id_eq addr_eq m p info') b') ∙ h)),
        )
  ]
    where
      none_ne : {B : Type 0} (b : B) → none ≢ some b
      none_ne b e = cc

      pair_left : (x y : A) (c d : Option T) → line x c ≡ line y d → x ≡ y
      pair_left x y c d e = cc

  -- A line of a table less some peers was there before.
  pub without_ids_line :
      (t : I → Option (A × Option T)) (ids : List I) (j : I) (l : A × Option T)
      → without_ids id_eq addr_eq t ids j ≡ some l
      → t j ≡ some l
  without_ids_line t [] j l h = h
  without_ids_line t (id ∷ ids) j l h = kept (without_ids_line (without_id id_eq t id) ids j l h)
    where
      kept : without_id id_eq t id j ≡ some l → t j ≡ some l
      kept e = elim (id_eq j id) [
        | yes same ↦ absurd (none_ne (sym (if_pos (id_eq j id) same none (t j)) ∙ e))
        | no other ↦ sym (if_neg (id_eq j id) other none (t j)) ∙ e
      ]
        where
          none_ne : none ≢ some l
          none_ne k = cc

module _ {A : Type 0} (n : Nom) (id_eq : Discrete Bytes) (addr_eq : Discrete (ForwardAddr A))
    (P : A → Type 0) where
  -- The maps agree, and every peer behind a socket satisfies P.
  pub record IsGood (f : PortForward A) : Type 0 where
    pub valid : IsValid id_eq addr_eq f.forwards
    pub clients : f.has_clients ≡ true
    pub pipes : f.has_pipe ≡ true
    pub known :
        (j : Bytes) (a : A) (c : Option (Unit {0}))
        → peers id_eq addr_eq f.forwards j ≡ some (socket a, c)
        → P a

  -- An effect sends to no client but those that satisfy P.
  abbrev pub Reaches : Effect A → Type 0
  Reaches (send_client bytes addr) = P addr
  Reaches _ = Unit {0}

  unfoldable pub IsGoodTurn : Turn A → Type 0
  IsGoodTurn (goes_on f effects) = IsGood f × All Reaches effects
  IsGoodTurn (invalid_spa_name name) = Unit {0}

  -- A datagram of the reader's kind, from a client that satisfies P.
  abbrev pub IsGoodData : SocketData A → Type 0
  IsGoodData (from_pipe_data now x) = Unit {0}
  IsGoodData (from_client_data now addr bytes) =
      P addr × (parse_network_data n bytes ≢ panicked) × (parse_network_data n bytes ≢ diverged)
  IsGoodData (from_spa_data now bytes) =
      (parse_network_data n bytes ≢ panicked) × (parse_network_data n bytes ≢ diverged)
  IsGoodData (timeout_data now) = Unit {0}
  IsGoodData pipe_died = Unit {0}

  unfoldable pub Handled : Outcome (Turn A) → Type 0
  Handled o = (t : Turn A) × (o ≡ returns t) × IsGoodTurn t

  pub All-append :
      (xs ys : List (Effect A)) → All Reaches xs → All Reaches ys → All Reaches (xs ++ ys)
  All-append [] ys h k = k
  All-append (x ∷ xs) ys (h, hs) k = (h, All-append xs ys hs k)

  pub when-Reaches : (b : Bool) (e : Effect A) → Reaches e → All Reaches (when b e)
  when-Reaches true e h = (h, tt)
  when-Reaches false e h = tt

  pub socket_of : {x y : A} → socket x ≡ socket y → x ≡ y
  socket_of e = cc

  -- Behind an insertion, the peers are those from before and the new one.
  pub inserted-IsGood :
      (f : PortForward A) (m : ForwardMapping Bytes (ForwardAddr A) (Unit {0}))
      (addr : ForwardAddr A)
      → IsGood f
      → IsValid id_eq addr_eq m
      → ((a : A) → socket a ≡ addr → P a)
      → ((j : Bytes) (a : ForwardAddr A) (c : Option (Unit {0}))
          → peers id_eq addr_eq m j ≡ some (a, c)
          → (a ≡ addr)
            ⊎ ((old : Option (Unit {0})) × (peers id_eq addr_eq f.forwards j ≡ some (a, old))))
      → IsGood (record f { forwards = m })
  inserted-IsGood f m addr g v new table = record {
    valid = v;
    clients = g.clients;
    pipes = g.pipes;
    known = λ j a c h. elim (table j (socket a) c h) [
      | inl here ↦ new a here
      | inr (old, before) ↦ g.known j a old before
    ];
  }

  -- A change of a cell's times changes no peer.
  pub touched-IsGood :
      (f : PortForward A) (p : ℕ) (info info' : Info Bytes (ForwardAddr A) (Unit {0}))
      → IsGood f
      → f.forwards.cells p ≡ some info
      → info'.id ≡ info.id
      → info'.addr ≡ info.addr
      → info'.context ≡ info.context
      → IsGood (record f { forwards = touched id_eq addr_eq f.forwards p info' })
  touched-IsGood f p info info' g held si sa sc = record {
    valid = touched-IsValid id_eq addr_eq f.forwards p info info' held si sa sc g.valid;
    clients = g.clients;
    pipes = g.pipes;
    known = λ j a c h.
        let (old, before) =
          peers-touched id_eq addr_eq f.forwards p info info' held si sa sc g.valid j (socket a) c
            h in
        g.known j a old before;
  }
