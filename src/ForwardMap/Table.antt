-- ===== src/ForwardMap/Table.antt =====
-- The abstract view of a forward mapping: a table from a peer's id to its address and context.
use mathlib.Core.Logic.{ite}
use intouch2_mqtt.Base.{Option, none, some}

-- A line of the table, unless it is at the address.
abbrev pub unless_at :
    {A T : Type 0} → Discrete A → A → Option (A × Option T) → Option (A × Option T)
unless_at addr_eq addr none = none
unless_at addr_eq addr (some (a, c)) = ite (addr_eq a addr) none (some (a, c))

-- The table less the line of a peer.
abbrev pub without_id :
    {I A T : Type 0} → Discrete I → (I → Option (A × Option T)) → I → I → Option (A × Option T)
without_id id_eq t id j = ite (id_eq j id) none (t j)

-- The table less the line at an address.
abbrev pub without_addr :
    {I A T : Type 0} → Discrete A → (I → Option (A × Option T)) → A → I → Option (A × Option T)
without_addr addr_eq t addr j = unless_at addr_eq addr (t j)

-- The table with one line more, and no other at its address.
abbrev pub with_peer :
    {I A T : Type 0}
    → Discrete I
    → Discrete A
    → (I → Option (A × Option T))
    → A
    → I
    → T
    → I
    → Option (A × Option T)
with_peer id_eq addr_eq t addr id c j =
    ite (id_eq j id) (some (addr, some c)) (unless_at addr_eq addr (t j))

abbrev pub context_at : {A T : Type 0} → Option (A × Option T) → Option T
context_at none = none
context_at (some (addr, c)) = c
