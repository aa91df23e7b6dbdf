-- ===== src/ForwardMap/Timeouts.antt =====
-- Which peers time out, and when the next one will.
use mathlib.Core.Path.{fun_ext}
use intouch2_mqtt.Base.{
  ℕ, ◌+◌, ◌≤◌, ◌≡◌, refl, ap, ◌∙◌, inl, inr, Option, none, some, List, [], ◌∷◌, ◌++◌, arith,
  Bool-cases, ltb, if◌then◌else◌, All, append_assoc, append-nil,
}
use intouch2_mqtt.Outcome.{returns}
use intouch2_mqtt.Assoc.{find, find_entries}
use intouch2_mqtt.ForwardMap.{
  Info, ForwardMapping, timeout, push, note_late, scan_one, scan, remove_all, clear_timeouts,
}
use intouch2_mqtt.ForwardMap.Deadline.{
  next_one, next_deadline, IsLateOrBy, IsDeadline, IsFound, next_deadline-least,
  next_deadline-IsDeadline,
}
use intouch2_mqtt.ForwardMap.Table.{without_id, context_at}
use intouch2_mqtt.ForwardMap.Invariant.{IsPeer, IsValid}
use intouch2_mqtt.ForwardMap.Remove.{peers, remove_id_lem}

-- A peer that never answered, with a handshake timeout that is not longer than the other timeout,
-- keeps its place for the other timeout after its last package: the handshake timeout has no
-- effect.
pub timeout-unanswered :
    {I A T : Type 0} (info : Info I A T) (handshake_timeout udp_timeout : ℕ)
    → info.last_reply ≡ none
    → handshake_timeout ≤ udp_timeout
    → timeout info handshake_timeout udp_timeout ≡ info.last_forward + udp_timeout
unfolding timeout
timeout-unanswered info handshake_timeout udp_timeout silent h = rw (silent, timeout) (omega arith)

-- No peer times out before `udp_timeout` has passed since it was last forwarded, or since it
-- last replied.
pub timeout_bounds :
    {I A T : Type 0} (info : Info I A T) (handshake_timeout udp_timeout reply : ℕ)
    → info.last_reply ≡ some reply
    → (info.last_forward + udp_timeout ≤ timeout info handshake_timeout udp_timeout)
      × (reply + udp_timeout ≤ timeout info handshake_timeout udp_timeout)
unfolding timeout
timeout_bounds info handshake_timeout udp_timeout reply h =
    rw (h, timeout) (omega arith, omega arith)

module _ {I A T : Type 0} (id_eq : Discrete I) (addr_eq : Discrete A) where
  -- A table less the lines of a list of peers.
  abbrev pub without_ids : (I → Option (A × Option T)) → List I → I → Option (A × Option T)
  without_ids t [] = t
  without_ids t (id ∷ ids) = without_ids (without_id id_eq t id) ids

  remove_all_lem :
      (ids : List I) (m : ForwardMapping I A T)
      → IsValid id_eq addr_eq m
      → (m' : ForwardMapping I A T) × (removed : List T) × (remove_all id_eq addr_eq m ids
          ≡ returns (m', removed))
        × IsValid id_eq addr_eq m'
        × ((j : I) → peers id_eq addr_eq m' j ≡ without_ids (peers id_eq addr_eq m) ids j)
  unfolding remove_all
  remove_all_lem [] m v = (m, [], refl, v, λ j. refl)
  remove_all_lem (id ∷ ids) m v =
      let (m₁, e₁, v₁, k₁) = remove_id_lem id_eq addr_eq m id v in
      let (m₂, removed, e₂, v₂, k₂) = remove_all_lem ids m₁ v₁ in
      (
        m₂,
        push (context_at (peers id_eq addr_eq m id)) removed,
        rw e₁ (rw e₂),
        v₂,
        λ j. k₂ j ∙ ap (λ t. without_ids t ids j) (fun_ext k₁),
      )

  abbrev pub late_one : Option (Info I A T) → ℕ → ℕ → ℕ → List I → List I
  late_one none cutoff handshake_timeout udp_timeout ids = ids
  late_one (some info) cutoff handshake_timeout udp_timeout ids =
      if ltb (timeout info handshake_timeout udp_timeout) cutoff then info.id ∷ ids else ids

  -- The peers of a part of the address map that are late, in its order.
  abbrev pub late : ForwardMapping I A T → ℕ → ℕ → ℕ → List (A × ℕ) → List I
  late m cutoff hs udp [] = []
  late m cutoff hs udp (e ∷ rest) = late_one (m.cells e.1) cutoff hs udp (late m cutoff hs udp rest)

  abbrev IsEntry : ForwardMapping I A T → A × ℕ → Type 0
  IsEntry m e = (id : I) × (info : Info I A T) × IsPeer id_eq addr_eq m id e.0 e.1 info

  scan_one_lem :
      (m : ForwardMapping I A T) (cutoff hs udp : ℕ) (e : A × ℕ) (ids : List I) (lowest : Option ℕ)
      → IsEntry m e
      → scan_one id_eq addr_eq m cutoff hs udp e.1 (ids, lowest)
        ≡ returns (
          ids ++ late_one (m.cells e.1) cutoff hs udp [],
          next_one addr_eq (m.cells e.1) cutoff hs udp lowest,
        )
  unfolding scan_one note_late
  scan_one_lem m cutoff hs udp e ids lowest (id, info, a) =
      rw a.cell (elim (Bool-cases (ltb (timeout info hs udp) cutoff)) [
        | inl past ↦ rw past (rw (ap (λ x. find id_eq x m.ids) a.own_id ∙ a.at_id))
        | inr later ↦ rw later (rw append-nil)
      ])

  late_one-append :
      (o : Option (Info I A T)) (cutoff hs udp : ℕ) (ids : List I)
      → late_one o cutoff hs udp [] ++ ids ≡ late_one o cutoff hs udp ids
  late_one-append none cutoff hs udp ids = refl
  late_one-append (some info) cutoff hs udp ids =
      elim (Bool-cases (ltb (timeout info hs udp) cutoff)) [
        | inl past ↦ rw past
        | inr later ↦ rw later
      ]

  scan_lem :
      (m : ForwardMapping I A T) (cutoff hs udp : ℕ) (l : List (A × ℕ)) (ids : List I)
      (lowest : Option ℕ)
      → All (IsEntry m) l
      → scan id_eq addr_eq m cutoff hs udp l (ids, lowest)
        ≡ returns (ids ++ late m cutoff hs udp l, next_deadline addr_eq m cutoff hs udp l lowest)
  unfolding scan
  scan_lem m cutoff hs udp [] ids lowest a = rw append-nil
  scan_lem m cutoff hs udp (e ∷ l) ids lowest a =
      rw (scan_one_lem m cutoff hs udp e ids lowest a.0) (
        scan_lem m cutoff hs udp l _ _ a.1
        ∙ ap
            (λ x. returns (
              x,
              next_deadline addr_eq m cutoff hs udp l
                  (next_one addr_eq (m.cells e.1) cutoff hs udp lowest),
            ))
            (append_assoc ids (late_one (m.cells e.1) cutoff hs udp []) (late m cutoff hs udp l)
              ∙ ap (λ x. ids ++ x)
                  (late_one-append (m.cells e.1) cutoff hs udp (late m cutoff hs udp l))))

  entries :
      (m : ForwardMapping I A T) (l : List (A × ℕ))
      → IsValid id_eq addr_eq m
      → All (λ (e : A × ℕ). find addr_eq e.0 m.addrs ≡ some e.1) l
      → All (IsEntry m) l
  entries m [] v a = tt
  entries m (e ∷ l) v a = (v.by_addr e.0 e.1 a.0, entries m l v a.1)

  found :
      (m : ForwardMapping I A T) (l : List (A × ℕ))
      → All (IsEntry m) l
      → All (λ (e : A × ℕ). find addr_eq e.0 m.addrs ≡ some e.1) l
      → All (IsFound addr_eq m) l
  found m [] h a = tt
  found m (e ∷ l) ((id, info, b), h) a = ((a.0, info, b.cell), found m l h a.1)

  -- In a mapping whose two maps agree, clearing time-outs never panics: it takes exactly the late
  -- peers out of the table, keeps the maps in agreement, and reports the least deadline of the
  -- others: every peer in the address map is late, or the reported deadline is there and not
  -- later than when that peer times out, and a reported deadline is when a peer of the address
  -- map times out that is not late.
  pub clear_timeouts_lem :
      (cutoff : ℕ) (m : ForwardMapping I A T) (handshake_timeout udp_timeout : ℕ)
      → IsValid id_eq addr_eq m
      → (m' : ForwardMapping I A T) × (removed : List T) × (next : Option ℕ) × (clear_timeouts id_eq
            addr_eq cutoff m handshake_timeout udp_timeout
          ≡ returns (m', removed, next))
        × IsValid id_eq addr_eq m'
        × ((j : I)
            → peers id_eq addr_eq m' j
              ≡ without_ids
                  (peers id_eq addr_eq m)
                  (late m cutoff handshake_timeout udp_timeout m.addrs)
                  j)
        × All (IsLateOrBy addr_eq m cutoff handshake_timeout udp_timeout next) m.addrs
        × IsDeadline addr_eq m cutoff handshake_timeout udp_timeout next
  unfolding clear_timeouts
  clear_timeouts_lem cutoff m hs udp v =
      let (m', removed, e, v', k) = remove_all_lem (late m cutoff hs udp m.addrs) m v in
      let at = find_entries addr_eq m.addrs v.addrs_unique in
      let all = found m m.addrs (entries m m.addrs v at) at in
      (
        m',
        removed,
        next_deadline addr_eq m cutoff hs udp m.addrs none,
        rw (scan_lem m cutoff hs udp m.addrs [] none (entries m m.addrs v at)) (rw e),
        v',
        k,
        next_deadline-least addr_eq m cutoff hs udp m.addrs none all,
        next_deadline-IsDeadline addr_eq m cutoff hs udp m.addrs none all tt,
      )
