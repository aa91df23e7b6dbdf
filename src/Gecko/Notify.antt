-- ===== src/Gecko/Notify.antt =====
-- The job that tells subscribers of the spa's memory about changes, and `subscribe`, of
-- intouch2-mqtt/src/spa.rs.
use intouch2_mqtt.Base.{
  ℕ, ◌+◌, ◌-◌, ◌≡◌, refl, sym, ◌∙◌, Bool, true, false, ◌||◌, ◌&&◌, Option, none, some, List, [],
  ◌∷◌, map, Bytes, beq, beq_refl, beq_eq, arith, leb, leb→le, ◌==◌, ==_eq, if◌then◌else◌, length,
  drop, length-take, length-drop, All, Bool-cases, inl, inr, and_left, and_right,
}
use intouch2_mqtt.Outcome.{Outcome, returns, panics, ◌>>=◌}
use intouch2_mqtt.Gecko.{Range, GeckoDatas, is_within, slice, index}
use intouch2_mqtt.Gecko.Slices.{overlaps}

-- An entry of `state_subscribers`: its range, and what its `watch::Sender` holds, with the number of
-- times that it signalled a change.
pub record Subscriber : Type 0 where
  pub range : Range
  pub value : Bytes
  pub version : ℕ

-- `send_if_modified`, with the `copy_from_slice` that it calls.
abbrev pub refresh : Subscriber → Bytes → Outcome Subscriber
refresh s bytes =
    if beq bytes s.value
    then returns s
    else if length s.value == length bytes
    then returns record s { value = bytes; version = s.version + 1 }
    else panics

-- One subscriber and one dirty range.
unfoldable pub tell : Range → GeckoDatas → Subscriber → Outcome Subscriber
tell dirty_range g s =
    if overlaps s.range dirty_range then (index s.range g >>= refresh s) else returns s

unfoldable pub tell_all : Range → GeckoDatas → List Subscriber → Outcome (List Subscriber)
tell_all dirty_range g [] = returns []
tell_all dirty_range g (s ∷ subscribers) = do
  s' ← tell dirty_range g s
  subscribers' ← tell_all dirty_range g subscribers
  returns (s' ∷ subscribers')

-- `while let Some(dirty_range) = gecko_datas.peek_dirty()`, over the queue.
unfoldable pub drain : List Range → Bytes → List Subscriber → Outcome (GeckoDatas × List Subscriber)
drain [] bytes subscribers = returns (record { bytes = bytes; dirty = [] }, subscribers)
drain (dirty_range ∷ dirty) bytes subscribers = do
  subscribers' ←
      tell_all dirty_range record { bytes = bytes; dirty = dirty_range ∷ dirty } subscribers
  drain dirty bytes subscribers'

-- The body of the job once it is notified.
abbrev pub notify_subscribers :
    GeckoDatas → List Subscriber → Outcome (GeckoDatas × List Subscriber)
notify_subscribers g subscribers = drain g.dirty g.bytes subscribers

abbrev pub is_same_range : Range → Range → Bool
is_same_range r s = r.start == s.start && r.end == s.end

abbrev pub find_range : Range → List Subscriber → Option Subscriber
find_range r [] = none
find_range r (s ∷ subscribers) =
    if is_same_range r s.range then some s else find_range r subscribers

-- The two arms of `subscribe`: `Occupied` and `Vacant`.
abbrev pub subscribe_entry :
    Range
    → GeckoDatas
    → List Subscriber
    → Option Subscriber
    → Outcome (Subscriber × List Subscriber)
subscribe_entry r g subscribers (some s) = returns (s, subscribers)
subscribe_entry r g subscribers none = do
  bytes ← index r g
  let s : Subscriber = record { range = r; value = bytes; version = 0 }
  returns (s, s ∷ subscribers)

-- `SpaConnection::subscribe`: a sender for each range, made with the current bytes.
unfoldable pub subscribe :
    Range → GeckoDatas → List Subscriber → Outcome (Subscriber × List Subscriber)
subscribe r g subscribers = subscribe_entry r g subscribers (find_range r subscribers)

-- A queue that would tell the range.
abbrev pub is_queued : Range → List Range → Bool
is_queued r [] = false
is_queued r (d ∷ dirty) = overlaps r d || is_queued r dirty

-- What a subscriber has is current, or the queue tells it.
abbrev pub IsCovered : List Range → Bytes → Subscriber → Type 0
IsCovered dirty bytes s =
    (is_within s.range bytes ≡ true)
    × ((length s.value ≡ s.range.end - s.range.start)
        × (is_queued s.range dirty ≡ false → s.value ≡ slice s.range bytes))

-- A subscriber with the current bytes, with one more signal where they differ from what it had.
unfoldable pub refreshed : Bytes → Subscriber → Subscriber
refreshed bytes s =
    if beq (slice s.range bytes) s.value
    then s
    else record s { value = slice s.range bytes; version = s.version + 1 }

pub length-slice :
    (r : Range) (xs : Bytes) → is_within r xs ≡ true → length (slice r xs) ≡ r.end - r.start
length-slice r xs h =
    let a = leb→le r.start r.end (and_left (leb r.start r.end) (leb r.end (length xs)) h) in
    let b = leb→le r.end (length xs) (and_right (leb r.start r.end) (leb r.end (length xs)) h) in
    omega (arith, length-take (r.end - r.start) (drop r.start xs), length-drop r.start xs)

pub refreshed-value :
    (bytes : Bytes) (s : Subscriber) → (refreshed bytes s).value ≡ slice s.range bytes
unfolding refreshed
refreshed-value bytes s = elim (Bool-cases (beq (slice s.range bytes) s.value)) [
  | inl p ↦ rw p (sym (beq_eq (slice s.range bytes) s.value p))
  | inr p ↦ rw p refl
]

pub refreshed-range : (bytes : Bytes) (s : Subscriber) → (refreshed bytes s).range ≡ s.range
unfolding refreshed
refreshed-range bytes s = elim (Bool-cases (beq (slice s.range bytes) s.value)) [
  | inl p ↦ rw p refl
  | inr p ↦ rw p refl
]

refreshed_current :
    (bytes : Bytes) (s : Subscriber) → s.value ≡ slice s.range bytes → refreshed bytes s ≡ s
unfolding refreshed
refreshed_current bytes s h =
    let e : beq (slice s.range bytes) s.value ≡ true = rw h (beq_refl (slice s.range bytes)) in
    rw e refl

pub index_within :
    (r : Range) (g : GeckoDatas)
    → is_within r g.bytes ≡ true
    → index r g ≡ returns (slice r g.bytes)
unfolding index
index_within r g h = rw h refl

index-refresh :
    (bytes : Bytes) (dirty : List Range) (s : Subscriber)
    → is_within s.range bytes ≡ true
    → length s.value ≡ s.range.end - s.range.start
    → (index s.range (record { bytes = bytes; dirty = dirty }) >>= refresh s)
      ≡ returns (refreshed bytes s)
unfolding index refreshed
index-refresh bytes dirty s h k =
    let e = length-slice s.range bytes h in
    elim (Bool-cases (beq (slice s.range bytes) s.value)) [
      | inl p ↦ rw (h, p) refl
      | inr p ↦ rw (h, p, ==_eq (length s.value) (length (slice s.range bytes)) (k ∙ sym e)) refl
    ]

-- After one range: covered by the ranges that are left, and what it would become is the same.
tell-IsCovered :
    (d : Range) (dirty : List Range) (bytes : Bytes) (s : Subscriber)
    → IsCovered (d ∷ dirty) bytes s
    → (s' : Subscriber) × (tell d (record { bytes = bytes; dirty = d ∷ dirty }) s ≡ returns s')
      × IsCovered dirty bytes s'
      × (refreshed bytes s' ≡ refreshed bytes s)
unfolding tell
tell-IsCovered d dirty bytes s c =
    let same = refreshed-range bytes s in
    let current = refreshed-value bytes s in
    elim (Bool-cases (overlaps s.range d)) [
      | inl p ↦ (
        refreshed bytes s,
        (rw p (index-refresh bytes (d ∷ dirty) s c.0 c.1.0)),
        (rw (same, current) (c.0, (length-slice s.range bytes c.0, λ q. refl))),
        refreshed_current bytes (refreshed bytes s) (rw (same, current) refl),
      )
      | inr p ↦ (s, rw p refl, (c.0, (c.1.0, λ q. c.1.1 (rw (p, q) refl))), refl)
    ]

tell_all-IsCovered :
    (d : Range) (dirty : List Range) (bytes : Bytes) (subscribers : List Subscriber)
    → All (IsCovered (d ∷ dirty) bytes) subscribers
    → (subscribers' : List Subscriber) × (tell_all d
          (record { bytes = bytes; dirty = d ∷ dirty })
          subscribers
        ≡ returns subscribers')
      × All (IsCovered dirty bytes) subscribers'
      × (map (refreshed bytes) subscribers' ≡ map (refreshed bytes) subscribers)
unfolding tell_all
tell_all-IsCovered d dirty bytes [] c = ([], refl, tt, refl)
tell_all-IsCovered d dirty bytes (s ∷ subscribers) c =
    let (s', told, covered, same) = tell-IsCovered d dirty bytes s c.0 in
    let (rest, told', covered', same') = tell_all-IsCovered d dirty bytes subscribers c.1 in
    (s' ∷ rest, rw (told, told') refl, (covered, covered'), rw (same, same') refl)

map-refreshed :
    (bytes : Bytes) (subscribers : List Subscriber)
    → All (IsCovered [] bytes) subscribers
    → map (refreshed bytes) subscribers ≡ subscribers
map-refreshed bytes [] c = refl
map-refreshed bytes (s ∷ subscribers) c =
    rw (refreshed_current bytes s (c.0.1.1 refl), map-refreshed bytes subscribers c.1) refl

-- If every subscriber is covered (its range is in the memory, and its value is current unless a
-- queued range concerns it), the notifying job ends without a panic, the queue is empty, and
-- every subscriber holds the current bytes of its range, with one more signal exactly where these
-- differ from what it held.
pub drain_lem :
    (dirty : List Range) (bytes : Bytes) (subscribers : List Subscriber)
    → All (IsCovered dirty bytes) subscribers
    → drain dirty bytes subscribers
      ≡ returns (record { bytes = bytes; dirty = [] }, map (refreshed bytes) subscribers)
unfolding drain
drain_lem [] bytes subscribers c = rw (map-refreshed bytes subscribers c) refl
drain_lem (d ∷ dirty) bytes subscribers c =
    let (rest, told, covered, same) = tell_all-IsCovered d dirty bytes subscribers c in
    rw (told, drain_lem dirty bytes rest covered, same) refl
