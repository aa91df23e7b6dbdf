-- ===== src/Gecko/Subscribe.antt =====
-- Subscribing to a range of the memory, and writing to it.
use intouch2_mqtt.Base.{
  ◌-◌, ◌≤◌, ◌≡◌, refl, sym, subst, ◌∙◌, true, false, some, List, [], ◌∷◌, ◌++◌, Bytes, arith, leb,
  leb→le, length, All, Bool-cases, Option-cases, inl, inr, and_left,
}
use intouch2_mqtt.Outcome.{returns}
use intouch2_mqtt.Gecko.{Range, GeckoDatas, is_within, slice, splice, write}
use intouch2_mqtt.Gecko.Slices.{overlaps, slice-splice, length-splice, write-returns}
use intouch2_mqtt.Gecko.Notify.{
  Subscriber, is_same_range, find_range, subscribe, is_queued, IsCovered, length-slice,
  index_within,
}

is_queued-append :
    (r : Range) (dirty : List Range) (d : Range)
    → is_queued r (dirty ++ d ∷ []) ≡ false
    → (is_queued r dirty ≡ false) × (overlaps r d ≡ false)
is_queued-append r [] d h = (refl, ground arith)
is_queued-append r (e ∷ dirty) d h = elim (Bool-cases (overlaps r e)) [
  | inl p ↦ absurd (ground arith)
  | inr p ↦ let i = is_queued-append r dirty d (ground arith) in (rw (p, i.0) refl, i.1)
]

IsCovered-splice :
    (w : Range) (new bytes : Bytes) (dirty : List Range) (s : Subscriber)
    → w.start ≤ w.end
    → w.end ≤ length bytes
    → w.end - w.start ≡ length new
    → IsCovered dirty bytes s
    → IsCovered (dirty ++ w ∷ []) (splice w new bytes) s
IsCovered-splice w new bytes dirty s h k e (c, (l, v)) =
    let o =
      leb→le s.range.start s.range.end
        (and_left (leb s.range.start s.range.end) (leb s.range.end (length bytes)) c) in
    (
      rw (length-splice w new bytes h k e) c,
      (
        l,
        λ q.
            let (apart, alone) = is_queued-append s.range dirty w q in
            v apart ∙ sym (slice-splice s.range w new bytes h k e o alone),
      ),
    )

-- A write to the memory that returns keeps every covered subscriber covered: whoever the queue
-- does not tell has current bytes.
pub write-IsCovered :
    (w : Range) (new : Bytes) (g g' : GeckoDatas)
    → write w new g ≡ returns g'
    → (subscribers : List Subscriber) → All (IsCovered g.dirty g.bytes) subscribers
    → All (IsCovered g'.dirty g'.bytes) subscribers
unfolding write
write-IsCovered w new g g' h [] c = tt
write-IsCovered w new g g' h (s ∷ subscribers) c = (
  let (a, b, e, same) = write-returns w new g g' h in
      subst (λ (x : GeckoDatas). IsCovered x.dirty x.bytes s) same
        (IsCovered-splice w new g.bytes g.dirty s a b e c.0),
  write-IsCovered w new g g' h subscribers c.1,
)

same_range : (r s : Range) → is_same_range r s ≡ true → s ≡ r
same_range r s h =
    let p : s.start ≡ r.start = ground arith in
    let q : s.end ≡ r.end = ground arith in λ i. record { start = p i; end = q i }

find_range-IsCovered :
    (r : Range) (dirty : List Range) (bytes : Bytes) (subscribers : List Subscriber)
    → All (IsCovered dirty bytes) subscribers
    → (s : Subscriber) → find_range r subscribers ≡ some s
    → (s.range ≡ r) × IsCovered dirty bytes s
find_range-IsCovered r dirty bytes [] c s h = cc
find_range-IsCovered r dirty bytes (t ∷ subscribers) c s h =
    elim (Bool-cases (is_same_range r t.range)) [
      | inl p ↦
          let e : t ≡ s = ground arith in
          subst (λ x. (x.range ≡ r) × IsCovered dirty bytes x) e (same_range r t.range p, c.0)
      | inr p ↦ find_range-IsCovered r dirty bytes subscribers c.1 s (ground arith)
    ]

-- If the range is in the memory and all subscribers are covered, subscribing does not panic,
-- gives a covered subscriber for that range, and leaves all subscribers covered.
pub subscribe-IsCovered :
    (r : Range) (g : GeckoDatas) (subscribers : List Subscriber)
    → is_within r g.bytes ≡ true
    → All (IsCovered g.dirty g.bytes) subscribers
    → (s : Subscriber) × (subscribers' : List Subscriber) × (subscribe r g subscribers
        ≡ returns (s, subscribers'))
      × (s.range ≡ r)
      × IsCovered g.dirty g.bytes s
      × All (IsCovered g.dirty g.bytes) subscribers'
unfolding subscribe
subscribe-IsCovered r g subscribers h c = elim (Option-cases (find_range r subscribers)) [
  | inl absent ↦ (
    record { range = r; value = slice r g.bytes; version = 0 },
    record { range = r; value = slice r g.bytes; version = 0 } ∷ subscribers,
    rw (absent, index_within r g h) refl,
    refl,
    (h, (length-slice r g.bytes h, λ q. refl)),
    ((h, (length-slice r g.bytes h, λ q. refl)), c),
  )
  | inr (s, present) ↦
      let (same, covered) = find_range-IsCovered r g.dirty g.bytes subscribers c s present in
      (s, subscribers, rw present refl, same, covered, c)
]
