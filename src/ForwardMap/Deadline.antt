-- ===== src/ForwardMap/Deadline.antt =====
-- The next deadline that `clear_timeouts` of intouch2-mqtt/src/port_forward_mapping.rs reports.
use intouch2_mqtt.Base.{
  ℕ, ◌≤◌, ◌<◌, ◌≡◌, refl, inl, inr, ◌⊎◌, Option, none, some, List, [], ◌∷◌, arith, Bool-cases, ltb,
  if◌then◌else◌, All,
}
use intouch2_mqtt.Assoc.{find}
use intouch2_mqtt.ForwardMap.{Info, ForwardMapping, timeout, is_above, note_deadline}

-- There is a deadline, and it is not later than this.
abbrev pub IsBy : ℕ → Option ℕ → Type 0
IsBy limit none = ⊥
IsBy limit (some deadline) = deadline ≤ limit

note_deadline-IsBy : (d : ℕ) (lowest : Option ℕ) → IsBy d (note_deadline d lowest)
note_deadline-IsBy d none = omega arith
note_deadline-IsBy d (some old) = elim (Bool-cases (ltb old d)) [
  | inl above ↦ rw above (ground arith)
  | inr below ↦ rw below (omega arith)
]

note_deadline-IsBy_old :
    (limit d : ℕ) (lowest : Option ℕ) → IsBy limit lowest → IsBy limit (note_deadline d lowest)
note_deadline-IsBy_old limit d none h = absurd h
note_deadline-IsBy_old limit d (some old) h = elim (Bool-cases (ltb old d)) [
  | inl above ↦ rw above h
  | inr below ↦ rw below (ground arith)
]

module _ {I A T : Type 0} (addr_eq : Discrete A) where
  abbrev pub next_one : Option (Info I A T) → ℕ → ℕ → ℕ → Option ℕ → Option ℕ
  next_one none cutoff handshake_timeout udp_timeout lowest = lowest
  next_one (some info) cutoff handshake_timeout udp_timeout lowest =
      if ltb (timeout info handshake_timeout udp_timeout) cutoff
      then lowest
      else note_deadline (timeout info handshake_timeout udp_timeout) lowest

  -- The loop over a part of the address map.
  abbrev pub next_deadline : ForwardMapping I A T → ℕ → ℕ → ℕ → List (A × ℕ) → Option ℕ → Option ℕ
  next_deadline m cutoff hs udp [] lowest = lowest
  next_deadline m cutoff hs udp (e ∷ rest) lowest =
      next_deadline m cutoff hs udp rest (next_one (m.cells e.1) cutoff hs udp lowest)

  -- The peer of an address is late, or the deadline is not later than when it times out.
  abbrev pub IsLateOrBy : ForwardMapping I A T → ℕ → ℕ → ℕ → Option ℕ → A × ℕ → Type 0
  IsLateOrBy m cutoff hs udp next e =
      (info : Info I A T) × (m.cells e.1 ≡ some info)
      × ((timeout info hs udp < cutoff)
          ⊎ ((cutoff ≤ timeout info hs udp) × IsBy (timeout info hs udp) next))

  -- A deadline is when a peer of the address map times out that is not late.
  abbrev pub IsDeadline : ForwardMapping I A T → ℕ → ℕ → ℕ → Option ℕ → Type 0
  IsDeadline m cutoff hs udp none = Unit {0}
  IsDeadline m cutoff hs udp (some deadline) =
      (addr : A) × (p : ℕ) × (info : Info I A T) × (find addr_eq addr m.addrs ≡ some p)
      × (m.cells p ≡ some info)
      × (timeout info hs udp ≡ deadline)
      × (cutoff ≤ deadline)

  abbrev pub IsFound : ForwardMapping I A T → A × ℕ → Type 0
  IsFound m e =
      (find addr_eq e.0 m.addrs ≡ some e.1) × (info : Info I A T) × (m.cells e.1 ≡ some info)

  next_one-IsBy :
      (limit : ℕ) (o : Option (Info I A T)) (cutoff hs udp : ℕ) (lowest : Option ℕ)
      → IsBy limit lowest
      → IsBy limit (next_one o cutoff hs udp lowest)
  next_one-IsBy limit none cutoff hs udp lowest h = h
  next_one-IsBy limit (some info) cutoff hs udp lowest h =
      elim (Bool-cases (ltb (timeout info hs udp) cutoff)) [
        | inl late ↦ rw late h
        | inr live ↦ rw live (note_deadline-IsBy_old limit (timeout info hs udp) lowest h)
      ]

  next_deadline-IsBy :
      (m : ForwardMapping I A T) (limit cutoff hs udp : ℕ) (l : List (A × ℕ)) (lowest : Option ℕ)
      → IsBy limit lowest
      → IsBy limit (next_deadline m cutoff hs udp l lowest)
  next_deadline-IsBy m limit cutoff hs udp [] lowest h = h
  next_deadline-IsBy m limit cutoff hs udp (e ∷ l) lowest h =
      next_deadline-IsBy m limit cutoff hs udp l _
        (next_one-IsBy limit (m.cells e.1) cutoff hs udp lowest h)

  -- The deadline of the loop is not later than that of any peer it has seen.
  pub next_deadline-least :
      (m : ForwardMapping I A T) (cutoff hs udp : ℕ) (l : List (A × ℕ)) (lowest : Option ℕ)
      → All (IsFound m) l
      → All (IsLateOrBy m cutoff hs udp (next_deadline m cutoff hs udp l lowest)) l
  next_deadline-least m cutoff hs udp [] lowest all = tt
  next_deadline-least m cutoff hs udp (e ∷ l) lowest ((_, info, cell), all) = (
    (
      info,
      cell,
      elim (Bool-cases (ltb (timeout info hs udp) cutoff)) [
        | inl late ↦ inl (ground arith)
        | inr live ↦
            let now : IsBy (timeout info hs udp) (next_one (m.cells e.1) cutoff hs udp lowest) =
              rw (cell, live) (note_deadline-IsBy (timeout info hs udp) lowest) in
            inr (
              ground arith,
              next_deadline-IsBy m (timeout info hs udp) cutoff hs udp l
                  (next_one (m.cells e.1) cutoff hs udp lowest) now,
            )
      ],
    ),
    next_deadline-least m cutoff hs udp l _ all,
  )

  next_one-IsDeadline :
      (m : ForwardMapping I A T) (cutoff hs udp : ℕ) (e : A × ℕ) (lowest : Option ℕ)
      → IsFound m e
      → IsDeadline m cutoff hs udp lowest
      → IsDeadline m cutoff hs udp (next_one (m.cells e.1) cutoff hs udp lowest)
  next_one-IsDeadline m cutoff hs udp e lowest (at, info, cell) h =
      elim (Bool-cases (ltb (timeout info hs udp) cutoff)) [
        | inl late ↦ rw (cell, late) h
        | inr live ↦ elim (Bool-cases (is_above (timeout info hs udp) lowest)) [
          | inl above ↦ rw (cell, live, above) h
          | inr below ↦ rw (cell, live, below) (e.0, e.1, info, at, cell, refl, ground arith)
        ]
      ]

  -- The deadline of the loop is one of a peer.
  pub next_deadline-IsDeadline :
      (m : ForwardMapping I A T) (cutoff hs udp : ℕ) (l : List (A × ℕ)) (lowest : Option ℕ)
      → All (IsFound m) l
      → IsDeadline m cutoff hs udp lowest
      → IsDeadline m cutoff hs udp (next_deadline m cutoff hs udp l lowest)
  next_deadline-IsDeadline m cutoff hs udp [] lowest all h = h
  next_deadline-IsDeadline m cutoff hs udp (e ∷ l) lowest (found, all) h =
      next_deadline-IsDeadline m cutoff hs udp l _ all
        (next_one-IsDeadline m cutoff hs udp e lowest found h)
