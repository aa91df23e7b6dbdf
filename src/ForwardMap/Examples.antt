-- ===== src/ForwardMap/Examples.antt =====
-- Runs of the forward mapping.
use native.Mathlib.Decide.{ℕ_discrete}
use intouch2_mqtt.Base.{
  All, ℕ, ◌≡◌, ◌≢◌, refl, ap, sym, ◌∙◌, subst, Option, none, some, List, [], ◌∷◌, arith,
}
use intouch2_mqtt.Outcome.{returns, eq_of_returns}
use intouch2_mqtt.Assoc.{find, erase, put}
use intouch2_mqtt.ForwardMap.{
  Info, ForwardMapping, update, empty, insert, remove_id, remove_addr, clear_timeouts, get_id,
  remove_and_reuse_arcs, remove_id', reuse_addr, remove_addr',
}
use intouch2_mqtt.ForwardMap.Table.{without_id, without_addr, with_peer, context_at}
use intouch2_mqtt.ForwardMap.Invariant.{IsValid, empty-IsValid}
use intouch2_mqtt.ForwardMap.Remove.{peers, remove_id_lem, remove_addr_lem}
use intouch2_mqtt.ForwardMap.Insert.{insert_new}
use intouch2_mqtt.ForwardMap.Timeouts.{clear_timeouts_lem, without_ids, late}
use intouch2_mqtt.ForwardMap.Deadline.{IsLateOrBy, IsDeadline}

abbrev Mapping : Type 0
Mapping = ForwardMapping ℕ ℕ ℕ

-- Peer 1 at address 70, since time 5.
abbrev peer : Info ℕ ℕ ℕ
peer = record { id = 1; addr = 70; last_forward = 5; last_reply = none; context = some 9 }

abbrev filled : Mapping
filled = record {
  ids = (1, 0) ∷ [];
  addrs = (70, 0) ∷ [];
  cells = update (λ p. none) 0 (some peer);
  fresh = 1;
}

abbrev IsValidMapping : Mapping → Type 0
IsValidMapping m = IsValid ℕ_discrete ℕ_discrete m

absent-empty : (c : Option ℕ) → peers ℕ_discrete ℕ_discrete empty 1 ≢ some (70, c)
unfolding peers get_id find ℕ_discrete
absent-empty c h = cc

filled-insert : insert ℕ_discrete ℕ_discrete 5 empty 70 1 9 ≡ returns (filled, some 0)
unfolding insert remove_and_reuse_arcs remove_id' reuse_addr remove_addr' find erase put ℕ_discrete
filled-insert = refl

filled-IsValid : IsValidMapping filled
filled-IsValid =
    let (m', p, e, v, found, table) =
      insert_new ℕ_discrete ℕ_discrete 5 empty 70 1 9 (empty-IsValid ℕ_discrete ℕ_discrete)
        absent-empty in
    subst IsValidMapping
      (ap (λ (r : Mapping × Option ℕ). r.0) (eq_of_returns (sym e ∙ filled-insert))) v

filled-peer : peers ℕ_discrete ℕ_discrete filled 1 ≡ some (70, some 9)
unfolding peers get_id find ℕ_discrete
filled-peer = refl

not_at-71 : (c : Option ℕ) → peers ℕ_discrete ℕ_discrete filled 1 ≢ some (71, c)
not_at-71 c h = let e = sym h ∙ filled-peer in absurd (ground arith)

-- Peer 1 moves from address 70 to 71.
insert_new_example :
    (m' : Mapping) × (p : ℕ) × (insert ℕ_discrete ℕ_discrete 8 filled 71 1 4 ≡ returns (m', some p))
    × IsValid ℕ_discrete ℕ_discrete m'
    × (find ℕ_discrete 1 m'.ids ≡ some p)
    × ((j : ℕ)
        → peers ℕ_discrete ℕ_discrete m' j
          ≡ with_peer ℕ_discrete ℕ_discrete (peers ℕ_discrete ℕ_discrete filled) 71 1 4 j)
insert_new_example = insert_new ℕ_discrete ℕ_discrete 8 filled 71 1 4 filled-IsValid not_at-71

remove_id_example :
    (m' : Mapping) × (remove_id ℕ_discrete ℕ_discrete filled 1
      ≡ returns (m', context_at (peers ℕ_discrete ℕ_discrete filled 1)))
    × IsValid ℕ_discrete ℕ_discrete m'
    × ((j : ℕ)
        → peers ℕ_discrete ℕ_discrete m' j
          ≡ without_id ℕ_discrete (peers ℕ_discrete ℕ_discrete filled) 1 j)
remove_id_example = remove_id_lem ℕ_discrete ℕ_discrete filled 1 filled-IsValid

remove_addr_example :
    (m' : Mapping) × (c : Option ℕ) × (remove_addr ℕ_discrete ℕ_discrete filled 70
      ≡ returns (m', c))
    × IsValid ℕ_discrete ℕ_discrete m'
    × ((j : ℕ)
        → peers ℕ_discrete ℕ_discrete m' j
          ≡ without_addr ℕ_discrete (peers ℕ_discrete ℕ_discrete filled) 70 j)
remove_addr_example = remove_addr_lem ℕ_discrete ℕ_discrete filled 70 filled-IsValid

-- At time 100, with timeouts of 10 and 20.
clear_timeouts_example :
    (m' : Mapping) × (removed : List ℕ) × (next : Option ℕ) × (clear_timeouts ℕ_discrete ℕ_discrete
        10 filled 10 20
      ≡ returns (m', removed, next))
    × IsValidMapping m'
    × ((j : ℕ)
        → peers ℕ_discrete ℕ_discrete m' j
          ≡ without_ids ℕ_discrete ℕ_discrete
              (peers ℕ_discrete ℕ_discrete filled)
              (late ℕ_discrete ℕ_discrete filled 10 10 20 filled.addrs)
              j)
    × All (IsLateOrBy ℕ_discrete filled 10 10 20 next) filled.addrs
    × IsDeadline ℕ_discrete filled 10 10 20 next
clear_timeouts_example = clear_timeouts_lem ℕ_discrete ℕ_discrete 10 filled 10 20 filled-IsValid
