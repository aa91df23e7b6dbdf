-- ===== src/ForwardMap.antt =====
-- Which peer forwards to which address: intouch2-mqtt/src/port_forward_mapping.rs. The two hash
-- maps share a cell for each peer; a cell's number stands for its `Arc`, and a weak reference can
-- be upgraded as long as the map holds the key.
pub mod Invariant
pub mod Table
pub mod Remove
pub mod Extend
pub mod Insert
pub mod Deadline
pub mod Timeouts
pub mod Touched
mod Examples
use native.Mathlib.Decide.{ℕ_discrete}
use mathlib.Core.Logic.{ite}
use intouch2_mqtt.Base.{
  ℕ, suc, ◌+◌, Bool, true, false, Option, none, some, List, [], ◌∷◌, ◌++◌, max, length, ltb, leb,
  if◌then◌else◌, ◌==◌,
}
use intouch2_mqtt.Outcome.{Outcome, returns, panics, ◌>>=◌, expect}
use intouch2_mqtt.Assoc.{find, erase, put}

-- `ForwardMappingInfo`; `id` and `addr` are what the weak references point to, and an `Instant` is
-- a number.
pub record Info (I A T : Type 0) : Type 0 where
  pub id : I
  pub addr : A
  pub last_forward : ℕ
  pub last_reply : Option ℕ
  pub context : Option T

pub record ForwardMapping (I A T : Type 0) : Type 0 where
  pub ids : List (I × ℕ)
  pub addrs : List (A × ℕ)
  pub cells : ℕ → Option (Info I A T)
  -- The cell that `Arc::new` gives next.
  pub fresh : ℕ

abbrev pub update {ℓ} : {B : Type ℓ} → (ℕ → B) → ℕ → B → ℕ → B
update f p b q = if p == q then b else f q

-- `ForwardMappingInfo::timeout`
unfoldable pub timeout : {I A T : Type 0} → Info I A T → ℕ → ℕ → ℕ
timeout info handshake_timeout udp_timeout =
    let reply_timeout : ℕ = elim info.last_reply [
      | some last_reply ↦ last_reply + udp_timeout
      | none ↦ info.last_forward + handshake_timeout
    ] in
    let forward_timeout : ℕ = info.last_forward + udp_timeout in max reply_timeout forward_timeout

-- `lowest.map(|old| timeout > old) == Some(true)`
abbrev pub is_above : ℕ → Option ℕ → Bool
is_above deadline none = false
is_above deadline (some old) = ltb old deadline

abbrev pub note_deadline : ℕ → Option ℕ → Option ℕ
note_deadline deadline lowest = if is_above deadline lowest then lowest else some deadline

abbrev pub push : {T : Type 0} → Option T → List T → List T
push none removed = removed
push (some x) removed = x ∷ removed

-- `Default::default`
abbrev pub empty : {I A T : Type 0} → ForwardMapping I A T
empty = record { ids = []; addrs = []; cells = λ p. none; fresh = 0 }

-- `Weak::upgrade`: the key is alive while its map holds it.
abbrev pub upgrade : {K : Type 0} → K → Option ℕ → Option K
upgrade k (some _) = some k
upgrade k none = none

-- Both names lead to one cell.
abbrev pub is_same_cell : Option ℕ → Option ℕ → Bool
is_same_cell (some p) (some q) = p == q
is_same_cell _ _ = false

module _ {I A T : Type 0} (id_eq : Discrete I) (addr_eq : Discrete A) where
  -- What a pointer of one of the maps leads to.
  abbrev pub cell_at : ForwardMapping I A T → Option ℕ → Option (Info I A T)
  cell_at m none = none
  cell_at m (some p) = m.cells p

  unfoldable pub get_id : ForwardMapping I A T → I → Option (Info I A T)
  get_id m id = cell_at m (find id_eq id m.ids)

  unfoldable pub get_addr : ForwardMapping I A T → A → Option (Info I A T)
  get_addr m addr = cell_at m (find addr_eq addr m.addrs)

  -- `len`, with its `debug_assert_eq`
  unfoldable pub len : ForwardMapping I A T → Outcome ℕ
  len m = if length m.addrs == length m.ids then returns (length m.ids) else panics

  -- `_remove_id` behind the lookup of the cell
  unfoldable pub drop_id :
      ForwardMapping I A T → I → ℕ → Outcome (ForwardMapping I A T × Option (T × A × I))
  drop_id m id p = do
    info ← expect (m.cells p)
    addr ← expect (upgrade info.addr (find addr_eq info.addr m.addrs))
    context ← expect info.context
    returns (
      record m {
        ids = erase id_eq id m.ids;
        addrs = erase addr_eq addr m.addrs;
        cells = update m.cells p (some (record info { context = none }));
      },
      some (context, addr, id),
    )

  unfoldable pub remove_id' :
      ForwardMapping I A T → I → Outcome (ForwardMapping I A T × Option (T × A × I))
  remove_id' m id = elim (find id_eq id m.ids) [
    | none ↦ returns (m, none)
    | some p ↦ drop_id m id p
  ]

  unfoldable pub drop_addr :
      ForwardMapping I A T → A → ℕ → Outcome (ForwardMapping I A T × Option (T × A × I))
  drop_addr m addr p = do
    info ← expect (m.cells p)
    id ← expect (upgrade info.id (find id_eq info.id m.ids))
    context ← expect info.context
    returns (
      record m {
        ids = erase id_eq id m.ids;
        addrs = erase addr_eq addr m.addrs;
        cells = update m.cells p (some (record info { context = none }));
      },
      some (context, addr, id),
    )

  unfoldable pub remove_addr' :
      ForwardMapping I A T → A → Outcome (ForwardMapping I A T × Option (T × A × I))
  remove_addr' m addr = elim (find addr_eq addr m.addrs) [
    | none ↦ returns (m, none)
    | some p ↦ drop_addr m addr p
  ]

  abbrev pub context_of : Option (T × A × I) → Option T
  context_of none = none
  context_of (some (c, addr, id)) = some c

  unfoldable pub remove_id : ForwardMapping I A T → I → Outcome (ForwardMapping I A T × Option T)
  remove_id m id = do (m', removed) ← remove_id' m id; returns (m', context_of removed)

  unfoldable pub remove_addr : ForwardMapping I A T → A → Outcome (ForwardMapping I A T × Option T)
  remove_addr m addr = do (m', removed) ← remove_addr' m addr; returns (m', context_of removed)

  -- The second half of `remove_and_reuse_arcs`: the address, unless it went with the peer.
  unfoldable pub reuse_addr : ForwardMapping I A T → A → I → Outcome (ForwardMapping I A T × A × I)
  reuse_addr m addr id = do
    (m', removed) ← remove_addr' m addr
    elim removed [ some (_, addr', _) ↦ returns (m', addr', id) | none ↦ returns (m', addr, id) ]

  unfoldable pub remove_and_reuse_arcs :
      ForwardMapping I A T → A → I → Outcome (ForwardMapping I A T × A × I)
  remove_and_reuse_arcs m addr id = do
    (m', removed) ← remove_id' m id
    elim removed [
      | some (_, new_addr, id') ↦
          ite (addr_eq new_addr addr) (returns (m', new_addr, id')) (reuse_addr m' addr id')
      | none ↦ reuse_addr m' addr id
    ]

  -- `insert`, with the time of `Instant::now`; the result is the peer's cell.
  unfoldable pub insert :
      ℕ → ForwardMapping I A T → A → I → T → Outcome (ForwardMapping I A T × Option ℕ)
  insert now m addr id context =
      let replace : Outcome (ForwardMapping I A T × Option ℕ) = do
        (m', addr', id') ← remove_and_reuse_arcs m addr id
        let p = m'.fresh
        let info = some (record {
          id = id';
          addr = addr';
          last_forward = now;
          last_reply = none;
          context = some context;
        })
        returns (
          record m' {
            ids = put id_eq id' p m'.ids;
            addrs = put addr_eq addr' p m'.addrs;
            cells = update m'.cells p info;
            fresh = p + 1;
          },
          some p,
        )
      in if is_same_cell (find addr_eq addr m.addrs) (find id_eq id m.ids)
        then returns (m, find addr_eq addr m.addrs)
        else replace

  -- `to_remove.push(cell.id())`
  unfoldable pub note_late :
      ForwardMapping I A T → Info I A T → List I × Option ℕ → Outcome (List I × Option ℕ)
  note_late m info (to_remove, lowest) =
      expect (upgrade info.id (find id_eq info.id m.ids)) >>= λ id.
      returns (to_remove ++ id ∷ [], lowest)

  -- The body of the first loop of `clear_timeouts`: who is late, and the next deadline.
  unfoldable pub scan_one :
      ForwardMapping I A T → ℕ → ℕ → ℕ → ℕ → List I × Option ℕ → Outcome (List I × Option ℕ)
  scan_one m cutoff handshake_timeout udp_timeout p acc = expect (m.cells p) >>= λ info.
      if ltb (timeout info handshake_timeout udp_timeout) cutoff
      then note_late m info acc
      else returns (acc.0, note_deadline (timeout info handshake_timeout udp_timeout) acc.1)

  unfoldable pub scan :
      ForwardMapping I A T
      → ℕ
      → ℕ
      → ℕ
      → List (A × ℕ)
      → List I × Option ℕ
      → Outcome (List I × Option ℕ)
  scan m cutoff handshake_timeout udp_timeout [] acc = returns acc
  scan m cutoff handshake_timeout udp_timeout ((addr, p) ∷ rest) acc = do
    acc' ← scan_one m cutoff handshake_timeout udp_timeout p acc
    scan m cutoff handshake_timeout udp_timeout rest acc'

  -- The second loop: the contexts of those that were there.
  unfoldable pub remove_all :
      ForwardMapping I A T → List I → Outcome (ForwardMapping I A T × List T)
  remove_all m [] = returns (m, [])
  remove_all m (id ∷ to_remove) = do
    (m', x) ← remove_id m id
    (m'', removed) ← remove_all m' to_remove
    returns (m'', push x removed)

  -- `clear_timeouts`, with the time of `Instant::now`
  unfoldable pub clear_timeouts :
      ℕ → ForwardMapping I A T → ℕ → ℕ → Outcome (ForwardMapping I A T × List T × Option ℕ)
  clear_timeouts cutoff m handshake_timeout udp_timeout = do
    (to_remove, lowest) ← scan m cutoff handshake_timeout udp_timeout m.addrs ([], none)
    (m', removed) ← remove_all m to_remove
    returns (m', removed, lowest)
