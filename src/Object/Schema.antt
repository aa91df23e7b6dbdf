-- ===== src/Object/Schema.antt =====
-- Which values read back: conditions on a member, and on a package's table.
use intouch2_mqtt.Base.{◌≡◌, Bool, true, false, ◌&&◌, List, [], ◌∷◌, length, All}
use intouch2_mqtt.Object.{
  StatusChange, MemberType, u8, u16, watercare_type, slice, status_changes, reminders, array,
  ActualType, Member, tag, member, Fields, Package, simple, tailing, struct, Payload, Kind,
  format_of, NetworkPackageData,
}

-- The member reads a number of bytes that its type fixes.
abbrev pub is_sized : MemberType → Bool
is_sized slice = false
is_sized status_changes = false
is_sized reminders = false
is_sized _ = true

-- Only the last line of a struct may read to the end of the input.
abbrev pub is_ordered : List Member → Bool
is_ordered [] = true
is_ordered (tag _ ∷ ms) = is_ordered ms
is_ordered (member _ t ∷ []) = true
is_ordered (member _ t ∷ m ∷ ms) = is_sized t && is_ordered (m ∷ ms)

-- A value that its own composer and parser agree on: arrays have the length of their type, and no
-- reminder is listed.
abbrev pub IsExact : (t : MemberType) → ActualType t → Type 0
IsExact status_changes changes = All (λ (c : StatusChange). length c.bytes ≡ 2) changes
IsExact reminders infos = infos ≡ []
IsExact (array n) bytes = length bytes ≡ n
IsExact u8 v = Unit
IsExact u16 v = Unit
IsExact watercare_type v = Unit
IsExact slice v = Unit

abbrev pub AreExact : (ms : List Member) → Fields ms → Type 0
AreExact [] v = Unit
AreExact (tag _ ∷ ms) v = AreExact ms v
AreExact (member _ t ∷ ms) v = IsExact t v.0 × AreExact ms v.1

abbrev pub is_ordered_package : Package → Bool
is_ordered_package (struct ms) = is_ordered ms
is_ordered_package _ = true

abbrev pub IsExactPayload : (p : Package) → Payload p → Type 0
IsExactPayload (simple verb) v = Unit
IsExactPayload (tailing verb) v = Unit
IsExactPayload (struct ms) v = AreExact ms v

-- The variants that another variant does not shadow: not the fallbacks.
abbrev pub is_fallback : Kind → Bool
is_fallback Kind.malformed_reminders_request = true
is_fallback Kind.unknown = true
is_fallback _ = false

abbrev pub IsCanonical : NetworkPackageData → Type 0
IsCanonical d = (is_fallback d.0 ≡ false) × IsExactPayload (format_of d.0) d.1
