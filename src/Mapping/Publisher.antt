-- ===== src/Mapping/Publisher.antt =====
-- What the publishing job of a state in intouch2-mqtt/src/mapping.rs publishes.
use intouch2_mqtt.Base.{
  ℕ, ◌+◌, ◌*◌, ◌-◌, ◌≡◌, refl, ap, sym, ◌∙◌, none, some, List, [], ◌∷◌, map, Bytes, length, arith,
  All, inl, inr, leb, ◌&&◌,
}
use intouch2_mqtt.Outcome.{returns, panics, eq_of_returns, both-returns, if-returns}
use intouch2_mqtt.Gecko.{Range}
use intouch2_mqtt.Mapping.{
  Value, number, array_value, Values, no_values, value_then, MappingType, u8, u16, array,
  watercare_mode, multiple, MappingTypes, no_types, type_then, range_from, View, numbers,
  number_or_null,
}
use intouch2_mqtt.Mapping.Watch.{
  WatchMap, direct, combined, WatchMaps, no_maps, map_then, one_byte, two_bytes, subscribe,
  subscribe_children, borrow_and_update, borrow_all, changed, published, watch_range,
}

-- The receivers hold as many bytes as their ranges have.
abbrev pub IsSized : View → Type 0
IsSized view = (r : Range) → length (view.region r) ≡ r.end - r.start

abbrev pub big_endian : ℕ → Bytes → ℕ
big_endian high [] = high
big_endian high (byte ∷ bytes) = big_endian (high * 256 + byte) bytes

-- What a mapping means: the number that is stored at its address, the bytes of an array, the mode,
-- or the meaning of each child.
unfoldable mutual
  pub value_of : View → MappingType → Value
  value_of view (u8 addr) = number (big_endian 0 (view.region (range_from addr 1)))
  value_of view (u16 addr) = number (big_endian 0 (view.region (range_from addr 2)))
  value_of view (array addr len) = array_value (numbers (view.region (range_from addr len)))
  value_of view watercare_mode = number_or_null view.watercare
  value_of view (multiple children) = array_value (values_of view children)

  pub values_of : View → MappingTypes → Values
  values_of view no_types = no_values
  values_of view (type_then child children) =
      value_then (value_of view child) (values_of view children)

-- A child after the first reading: what it means now, but what a list of children meant first.
abbrev pub child_shown : View → View → MappingType → Value
child_shown first now (multiple children) = value_of first (multiple children)
child_shown first now type = value_of now type

abbrev pub children_shown : View → View → MappingTypes → Values
children_shown first now no_types = no_values
children_shown first now (type_then child children) =
    value_then (child_shown first now child) (children_shown first now children)

-- What is published after the first reading.
abbrev pub shown : View → View → MappingType → Value
shown first now (multiple children) = array_value (children_shown first now children)
shown first now type = value_of now type

one_byte_lem :
    (bytes : Bytes) → length bytes ≡ 1 → one_byte bytes ≡ returns (number (big_endian 0 bytes))
one_byte_lem [] h = absurd (omega arith)
one_byte_lem (byte ∷ []) h = ap (λ n. returns (number n)) (omega arith)
one_byte_lem (byte ∷ next ∷ bytes) h = absurd (omega arith)

two_bytes_lem :
    (bytes : Bytes) → length bytes ≡ 2 → two_bytes bytes ≡ returns (number (big_endian 0 bytes))
two_bytes_lem [] h = absurd (omega arith)
two_bytes_lem (high ∷ []) h = absurd (omega arith)
two_bytes_lem (high ∷ low ∷ []) h = ap (λ n. returns (number n)) (omega arith)
two_bytes_lem (high ∷ low ∷ next ∷ bytes) h = absurd (omega arith)

-- The maps before the first reading, and after it.
mutual
  fresh : MappingType → WatchMap
  fresh (multiple children) = combined none (fresh_all children)
  fresh (u8 addr) = direct (u8 addr)
  fresh (u16 addr) = direct (u16 addr)
  fresh (array addr len) = direct (array addr len)
  fresh watercare_mode = direct watercare_mode

  fresh_all : MappingTypes → WatchMaps
  fresh_all no_types = no_maps
  fresh_all (type_then child children) = map_then (fresh child) (fresh_all children)

mutual
  settled : View → MappingType → WatchMap
  settled view (multiple children) =
      combined (some (array_value (values_of view children))) (settled_all view children)
  settled view (u8 addr) = direct (u8 addr)
  settled view (u16 addr) = direct (u16 addr)
  settled view (array addr len) = direct (array addr len)
  settled view watercare_mode = direct watercare_mode

  settled_all : View → MappingTypes → WatchMaps
  settled_all view no_types = no_maps
  settled_all view (type_then child children) =
      map_then (settled view child) (settled_all view children)

watch_range-returns :
    (size : ℕ) (range : Range) (watch w : WatchMap)
    → watch_range size range watch ≡ returns w
    → watch ≡ w
watch_range-returns size range watch w h =
    elim (if-returns (leb range.start range.end && leb range.end size) (returns watch) panics w h) [
      | inl e ↦ eq_of_returns e
      | inr e ↦ cc
    ]

mutual
  unfolding subscribe fresh

  subscribe-fresh :
      (size : ℕ) (type : MappingType) (w : WatchMap)
      → subscribe size type ≡ returns w
      → fresh type ≡ w
  subscribe-fresh size (multiple no_types) w h = cc
  subscribe-fresh size (multiple (type_then child children)) w h =
      let (first, rest, e, es, k) =
        both-returns (subscribe size child) (subscribe_children size children)
          (λ a b. combined none (map_then a b)) w h in
      rw (subscribe-fresh size child first e, subscribe_children-fresh size children rest es) k
  subscribe-fresh size (u8 addr) w h =
      watch_range-returns size (range_from addr 1) (direct (u8 addr)) w h
  subscribe-fresh size (u16 addr) w h =
      watch_range-returns size (range_from addr 2) (direct (u16 addr)) w h
  subscribe-fresh size (array addr len) w h =
      watch_range-returns size (range_from addr len) (direct (array addr len)) w h
  subscribe-fresh size watercare_mode w h = eq_of_returns h

  subscribe_children-fresh :
      (size : ℕ) (types : MappingTypes) (ws : WatchMaps)
      → subscribe_children size types ≡ returns ws
      → fresh_all types ≡ ws
  subscribe_children-fresh size no_types ws h = eq_of_returns h
  subscribe_children-fresh size (type_then child children) ws h =
      let (first, rest, e, es, k) =
        both-returns (subscribe size child) (subscribe_children size children) map_then ws h in
      rw (subscribe-fresh size child first e, subscribe_children-fresh size children rest es) k

-- The first reading gives what a mapping means.
mutual
  unfolding borrow_and_update fresh settled value_of

  borrow-fresh :
      (view : View) (type : MappingType)
      → IsSized view
      → borrow_and_update view (fresh type) ≡ returns (value_of view type, settled view type)
  borrow-fresh view (u8 addr) h =
      rw (one_byte_lem (view.region (range_from addr 1)) (h (range_from addr 1) ∙ omega arith)) refl
  borrow-fresh view (u16 addr) h =
      rw (two_bytes_lem (view.region (range_from addr 2)) (h (range_from addr 2) ∙ omega arith))
        refl
  borrow-fresh view (array addr len) h = refl
  borrow-fresh view watercare_mode h = refl
  borrow-fresh view (multiple children) h = rw (borrow_all-fresh view children h) refl

  borrow_all-fresh :
      (view : View) (types : MappingTypes)
      → IsSized view
      → borrow_all view (fresh_all types) ≡ returns (values_of view types, settled_all view types)
  borrow_all-fresh view no_types h = refl
  borrow_all-fresh view (type_then child children) h =
      rw (borrow-fresh view child h, borrow_all-fresh view children h) refl

-- A child that was read, read again.
borrow-child :
    (first now : View) (type : MappingType)
    → IsSized now
    → borrow_and_update now (settled first type)
      ≡ returns (child_shown first now type, settled first type)
unfolding borrow_and_update settled value_of
borrow-child first now (multiple children) h = refl
borrow-child first now (u8 addr) h =
    rw (one_byte_lem (now.region (range_from addr 1)) (h (range_from addr 1) ∙ omega arith)) refl
borrow-child first now (u16 addr) h =
    rw (two_bytes_lem (now.region (range_from addr 2)) (h (range_from addr 2) ∙ omega arith)) refl
borrow-child first now (array addr len) h = refl
borrow-child first now watercare_mode h = refl

borrow_all-children :
    (first now : View) (types : MappingTypes)
    → IsSized now
    → borrow_all now (settled_all first types)
      ≡ returns (children_shown first now types, settled_all first types)
unfolding borrow_and_update settled
borrow_all-children first now no_types h = refl
borrow_all-children first now (type_then child children) h =
    rw (borrow-child first now child h, borrow_all-children first now children h) refl

-- A map that was read after a change.
abbrev reread : View → View → MappingType → WatchMap
reread first now (multiple children) =
    combined (some (array_value (children_shown first now children))) (settled_all first children)
reread first now type = settled first type

borrow-changed :
    (first now : View) (type : MappingType)
    → IsSized now
    → borrow_and_update now (changed (settled first type))
      ≡ returns (shown first now type, reread first now type)
unfolding borrow_and_update settled value_of
borrow-changed first now (multiple children) h = rw (borrow_all-children first now children h) refl
borrow-changed first now (u8 addr) h =
    rw (one_byte_lem (now.region (range_from addr 1)) (h (range_from addr 1) ∙ omega arith)) refl
borrow-changed first now (u16 addr) h =
    rw (two_bytes_lem (now.region (range_from addr 2)) (h (range_from addr 2) ∙ omega arith)) refl
borrow-changed first now (array addr len) h = refl
borrow-changed first now watercare_mode h = refl

changed-reread :
    (first now : View) (type : MappingType)
    → changed (reread first now type) ≡ changed (settled first type)
unfolding settled
changed-reread first now (multiple children) = refl
changed-reread first now (u8 addr) = refl
changed-reread first now (u16 addr) = refl
changed-reread first now (array addr len) = refl
changed-reread first now watercare_mode = refl

published-changed :
    (first now : View) (later : List View) (type : MappingType)
    → IsSized now
    → All IsSized later
    → published now later (changed (settled first type))
      ≡ returns (shown first now type ∷ map (λ v. shown first v type) later)
unfolding published
published-changed first now [] type h all = rw (borrow-changed first now type h) refl
published-changed first now (next ∷ later) type h (k, all) =
    rw
      (
        borrow-changed first now type h,
        changed-reread first now type,
        published-changed first next later type k all,
      )
      refl

published-fresh :
    (first : View) (later : List View) (type : MappingType)
    → IsSized first
    → All IsSized later
    → published first later (fresh type)
      ≡ returns (value_of first type ∷ map (λ v. shown first v type) later)
unfolding published
published-fresh first [] type h all = rw (borrow-fresh first type h) refl
published-fresh first (next ∷ later) type h (k, all) =
    rw (borrow-fresh first type h, published-changed first next later type k all) refl

-- If the subscription of a mapping to a memory of some size does not panic, and the receivers
-- hold as many bytes as their ranges have: what is published first is what the mapping means in
-- the first view, and what is published after each change is what it means in that view, except
-- that a list of mappings inside a list keeps what it meant in the first view.
pub published_lem :
    (size : ℕ) (first : View) (later : List View) (type : MappingType) (w : WatchMap)
    → subscribe size type ≡ returns w
    → IsSized first
    → All IsSized later
    → published first later w
      ≡ returns (value_of first type ∷ map (λ now. shown first now type) later)
published_lem size first later type w e h all =
    ap (published first later) (sym (subscribe-fresh size type w e))
    ∙ published-fresh first later type h all
