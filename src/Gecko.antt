-- ===== src/Gecko.antt =====
-- The copy of the spa's memory with its queue of changed ranges (intouch2/src/datas.rs). A slice
-- that the source borrows to write through is replaced at once: `write` is `index_mut` with
-- `copy_from_slice` of the bytes.
pub mod Overlay
pub mod Slices
pub mod Notify
pub mod Subscribe
mod Examples
use intouch2_mqtt.Base.{
  ℕ, ◌+◌, ◌-◌, ◌≤◌, Bool, true, false, Option, none, some, List, [], ◌∷◌, ◌++◌, Bytes,
  if◌then◌else◌, leb, ltb, ◌==◌, ◌&&◌, length, take, drop, replicate,
}
use intouch2_mqtt.Outcome.{Outcome, returns, panics, ◌>>=◌}

-- `Range<usize>`
pub record Range : Type 0 where
  pub start : ℕ
  pub end : ℕ

pub record GeckoDatas : Type 0 where
  pub bytes : Bytes
  pub dirty : List Range

abbrev pub new : ℕ → GeckoDatas
new area_size = record { bytes = replicate area_size 0; dirty = [] }

abbrev pub len : GeckoDatas → ℕ
len g = length (g.bytes)

abbrev pub peek_dirty : GeckoDatas → Option Range
peek_dirty g = elim (g.dirty) [ [] ↦ none | r ∷ rs ↦ some r ]

abbrev pub pop_front : Bytes → List Range → Option Range × GeckoDatas
pop_front bytes [] = (none, record { bytes = bytes; dirty = [] })
pop_front bytes (r ∷ rs) = (some r, record { bytes = bytes; dirty = rs })

abbrev pub pop_dirty : GeckoDatas → Option Range × GeckoDatas
pop_dirty g = pop_front (g.bytes) (g.dirty)

-- `slice.index(range)` is in range: `start <= end` and `end <= len`.
abbrev pub is_within : Range → Bytes → Bool
is_within r xs = leb (r.start) (r.end) && leb (r.end) (length xs)

abbrev pub slice : Range → Bytes → Bytes
slice r xs = take (r.end - r.start) (drop (r.start) xs)

-- `Index::index` with a range.
unfoldable pub index : Range → GeckoDatas → Outcome Bytes
index r g = if is_within r (g.bytes) then returns (slice r (g.bytes)) else panics

-- The bytes with those of a range replaced.
abbrev pub splice : Range → Bytes → Bytes → Bytes
splice r new xs = take (r.start) xs ++ (new ++ drop (r.end) xs)

-- `data[range].copy_from_slice(new)` through `IndexMut::index_mut`.
unfoldable pub write : Range → Bytes → GeckoDatas → Outcome GeckoDatas
write r new g =
    if is_within r (g.bytes)
    then if r.end - r.start == length new
      then returns record { bytes = splice r new (g.bytes); dirty = g.dirty ++ (r ∷ []) }
      else panics
    else panics

-- `Range::contains`
abbrev pub contains : Range → ℕ → Bool
contains r x = leb (r.start) x && ltb x (r.end)
