-- ===== src/Spa/Memory.antt =====
-- The job that follows the changes of the spa's memory, in `SpaConnection::init` of
-- intouch2-mqtt/src/spa.rs.
use intouch2_mqtt.Base.{
  ℕ, ◌+◌, ◌≡◌, refl, subst, ◌∙◌, Bool, true, false, not, ◌≤◌, Option, none, some, List, [], ◌∷◌,
  ◌++◌, Bytes, arith, ◌==◌, Bool-cases, inl, inr, if◌then◌else◌, length, beq, All, sym, ap,
  get_elem?, append_assoc, append-nil,
}
use intouch2_mqtt.Outcome.{Outcome, returns, ◌>>=◌, bind-returns, if-returns, eq_of_returns}
use intouch2_mqtt.Object.{StatusChange, set_status, push_status, push_status_ack}
use intouch2_mqtt.Framing.{NetworkPackage, addressed}
use intouch2_mqtt.Gecko.{Range, GeckoDatas, write, splice}
use intouch2_mqtt.Gecko.Overlay.{byte_over, get_elem?-splice}
use intouch2_mqtt.Gecko.Slices.{write_within, length-splice}
use intouch2_mqtt.Gecko.Subscribe.{write-IsCovered}
use intouch2_mqtt.Gecko.Notify.{Subscriber, IsCovered}
use intouch2_mqtt.Spa.{next_seq}

-- What the job did with a package: the memory, the sequence counter, what it sent, whether it
-- notified, and whether it ended with `InvalidData`.
pub record Reaction : Type 0 where
  pub memory : GeckoDatas
  pub seq : ℕ
  pub sent : List NetworkPackage
  pub notified : Bool
  pub failed : Bool

-- `matches!(dst, Some(ref dst) if *dst == id)`
abbrev pub is_for : Option Bytes → Bytes → Bool
is_for none id = false
is_for (some dst) id = beq dst id

-- The loop over the changes of a `PushStatus`.
unfoldable pub apply_changes : List StatusChange → GeckoDatas → Outcome GeckoDatas
apply_changes [] g = returns g
apply_changes (c ∷ changes) g =
    write (record { start = c.change; end = c.change + 2 }) c.bytes g >>= apply_changes changes

abbrev pub ignored : ℕ → GeckoDatas → Reaction
ignored seq g = record { memory = g; seq = seq; sent = []; notified = false; failed = false }

-- The acknowledgement of a `PushStatus` for this client, and the counter behind it.
unfoldable pub acknowledge : Bytes → ℕ → Option Bytes → Option Bytes → List NetworkPackage × ℕ
acknowledge my_id seq src dst =
    if is_for dst my_id
    then (addressed dst src (push_status_ack, (seq, tt)) ∷ [], next_seq seq)
    else ([], seq)

-- Behind the acknowledgement.
unfoldable pub push_changes :
    List NetworkPackage × ℕ → ℕ → List StatusChange → GeckoDatas → Outcome Reaction
push_changes (sent, seq) len changes g =
    if len == length changes
    then (apply_changes changes g >>= λ g'.
        returns record { memory = g'; seq = seq; sent = sent; notified = true; failed = false })
    else returns record { memory = g; seq = seq; sent = sent; notified = false; failed = true }

-- The arms of the job's `match`: a `SetStatus` with its destination, a `PushStatus` with both
-- addresses, and `_`.
pub data Update : Type 0 where
  set : Option Bytes → ℕ → Bytes → Update
  pushed : Option Bytes → Option Bytes → ℕ → List StatusChange → Update
  neither : Update

unfoldable pub update_of : NetworkPackage → Update
update_of (addressed src dst (set_status, (_, (_, (_, (_, (_, (pos, (new_data, _))))))))) =
    set dst pos new_data
update_of (addressed src dst (push_status, (len, (changes, _)))) = pushed src dst len changes
update_of _ = neither

unfoldable pub react : Bytes → Bytes → ℕ → GeckoDatas → Update → Outcome Reaction
react spa_id my_id seq g (set dst pos new_data) =
    if is_for dst spa_id
    then (write (record { start = pos; end = pos + length new_data }) new_data g >>= λ g'.
        returns record { memory = g'; seq = seq; sent = []; notified = true; failed = false })
    else returns (ignored seq g)
react spa_id my_id seq g (pushed src dst len changes) =
    push_changes (acknowledge my_id seq src dst) len changes g
react spa_id my_id seq g neither = returns (ignored seq g)

-- One turn of the job.
unfoldable pub on_package : Bytes → Bytes → ℕ → GeckoDatas → NetworkPackage → Outcome Reaction
on_package spa_id my_id seq g p = react spa_id my_id seq g (update_of p)

abbrev AllCovered : List Subscriber → GeckoDatas → Type 0
AllCovered subscribers g = All (IsCovered g.dirty g.bytes) subscribers

changes-covered :
    (changes : List StatusChange) (g g' : GeckoDatas) (subscribers : List Subscriber)
    → apply_changes changes g ≡ returns g'
    → AllCovered subscribers g
    → AllCovered subscribers g'
unfolding apply_changes
changes-covered [] g g' subscribers h c = let e : g ≡ g' = cc in subst (AllCovered subscribers) e c
changes-covered (x ∷ changes) g g' subscribers h c =
    let (g1, written, rest) =
      bind-returns (write (record { start = x.change; end = x.change + 2 }) x.bytes g)
        (apply_changes changes) g' h in
    changes-covered changes g1 g' subscribers rest (
      write-IsCovered (record { start = x.change; end = x.change + 2 }) x.bytes g g1 written
        subscribers c)

react-covered :
    (spa_id my_id : Bytes) (seq : ℕ) (g : GeckoDatas) (u : Update) (r : Reaction)
    (subscribers : List Subscriber)
    → react spa_id my_id seq g u ≡ returns r
    → AllCovered subscribers g
    → AllCovered subscribers r.memory
unfolding react push_changes
react-covered spa_id my_id seq g (set dst pos new_data) r subscribers h c =
    elim (if-returns (is_for dst spa_id) _ _ r h) [
      | inl written ↦
          let (g', w, e) =
            bind-returns (write (record { start = pos; end = pos + length new_data }) new_data g) _
              r written in
          subst (λ x. AllCovered subscribers x.memory) (eq_of_returns e)
            (write-IsCovered (record { start = pos; end = pos + length new_data }) new_data g g' w
              subscribers c)
      | inr e ↦ subst (λ x. AllCovered subscribers x.memory) (eq_of_returns e) c
    ]
react-covered spa_id my_id seq g (pushed src dst len changes) r subscribers h c =
    elim (if-returns (len == length changes) _ _ r h) [
      | inl applied ↦
          let (g', a, e) = bind-returns (apply_changes changes g) _ r applied in
          subst (λ x. AllCovered subscribers x.memory) (eq_of_returns e)
            (changes-covered changes g g' subscribers a c)
      | inr e ↦ subst (λ x. AllCovered subscribers x.memory) (eq_of_returns e) c
    ]
react-covered spa_id my_id seq g neither r subscribers h c =
    let e : ignored seq g ≡ r = cc in subst (λ x. AllCovered subscribers x.memory) e c

-- For every package for which the job that follows the memory's changes does not panic: if all
-- subscribers are covered before it, they are covered after it, so that no change to the memory
-- goes unqueued.
pub on_package-covered :
    (spa_id my_id : Bytes) (seq : ℕ) (g : GeckoDatas) (p : NetworkPackage) (r : Reaction)
    (subscribers : List Subscriber)
    → on_package spa_id my_id seq g p ≡ returns r
    → AllCovered subscribers g
    → AllCovered subscribers r.memory
unfolding on_package
on_package-covered spa_id my_id seq g p r subscribers h c =
    react-covered spa_id my_id seq g (update_of p) r subscribers h c

-- The changes that the memory has room for.
abbrev pub HasRoom : ℕ → List StatusChange → Type 0
HasRoom size changes =
    All (λ (c : StatusChange). (c.change + 2 ≤ size) × (length c.bytes ≡ 2)) changes

-- The byte at a position after the changes: that of the last one over it, or the old one.
abbrev pub after_changes : List StatusChange → ℕ → Option ℕ → Option ℕ
after_changes [] i old = old
after_changes (c ∷ changes) i old = after_changes changes i (byte_over c.change c.bytes i old)

-- What is queued for the changes.
abbrev pub ranges_of : List StatusChange → List Range
ranges_of [] = []
ranges_of (c ∷ changes) = record { start = c.change; end = c.change + 2 } ∷ ranges_of changes

-- Changes that fit are all applied and queued.
pub apply_changes-HasRoom :
    (changes : List StatusChange) (g : GeckoDatas)
    → HasRoom (length g.bytes) changes
    → (g' : GeckoDatas) × (apply_changes changes g ≡ returns g')
      × (length g'.bytes ≡ length g.bytes)
      × ((i : ℕ) → get_elem? g'.bytes i ≡ after_changes changes i (get_elem? g.bytes i))
      × (g'.dirty ≡ g.dirty ++ ranges_of changes)
unfolding apply_changes
apply_changes-HasRoom [] g h = (g, refl, refl, λ i. refl, sym (append-nil g.dirty))
apply_changes-HasRoom (c ∷ changes) g ((a, b), h) =
    let w : Range = record { start = c.change; end = c.change + 2 } in
    let written = write_within w c.bytes g (omega arith) a (omega arith) in
    let same = length-splice w c.bytes g.bytes (omega arith) a (omega arith) in
    let (g', run, size, bytes, dirty) =
      apply_changes-HasRoom changes
        (record { bytes = splice w c.bytes g.bytes; dirty = g.dirty ++ w ∷ [] }) (rw same h) in
    (
      g',
      rw written run,
      size ∙ same,
      λ i. bytes i ∙ ap (after_changes changes i) (get_elem?-splice w c.bytes g.bytes i b refl a),
      dirty ∙ append_assoc g.dirty (w ∷ []) (ranges_of changes),
    )

-- What the job makes of the changes, behind the acknowledgement.
push_changes_lem :
    (sent : List NetworkPackage) (seq len : ℕ) (changes : List StatusChange) (g : GeckoDatas)
    → HasRoom (length g.bytes) changes
    → (r : Reaction) × (push_changes (sent, seq) len changes g ≡ returns r)
      × (r.sent ≡ sent)
      × (r.failed ≡ not (len == length changes))
      × (r.notified ≡ (len == length changes))
      × (length r.memory.bytes ≡ length g.bytes)
      × ((i : ℕ)
          → get_elem? r.memory.bytes i ≡ (
              if len == length changes
              then after_changes changes i (get_elem? g.bytes i)
              else get_elem? g.bytes i))
      × (r.memory.dirty ≡ (if len == length changes then g.dirty ++ ranges_of changes else g.dirty))
unfolding push_changes
push_changes_lem sent seq len changes g h =
    let (g', run, size, bytes, dirty) = apply_changes-HasRoom changes g h in
    elim (Bool-cases (len == length changes)) [
      | inl right ↦ (
        record { memory = g'; seq = seq; sent = sent; notified = true; failed = false },
        rw (right, run) refl,
        refl,
        rw right refl,
        rw right refl,
        size,
        λ i. rw right (bytes i),
        rw right dirty,
      )
      | inr wrong ↦ (
        record { memory = g; seq = seq; sent = sent; notified = false; failed = true },
        rw wrong refl,
        refl,
        rw wrong refl,
        rw wrong refl,
        refl,
        λ i. rw wrong refl,
        rw wrong refl,
      )
    ]

acknowledge-sent :
    (my_id : Bytes) (seq : ℕ) (src dst : Option Bytes)
    → (acknowledge my_id seq src dst).0
      ≡ (if is_for dst my_id then addressed dst src (push_status_ack, (seq, tt)) ∷ [] else [])
unfolding acknowledge
acknowledge-sent my_id seq src dst = elim (Bool-cases (is_for dst my_id)) [
  | inl own ↦ rw own refl
  | inr other ↦ rw other refl
]

-- If the changes of a pushed status fit in the memory, the job does not panic. It sends the
-- acknowledgement exactly when the package is addressed to this client, also when the length
-- field is wrong; it fails exactly when that field is wrong, and notifies exactly when it is
-- right. The memory keeps its size. If the field is right, each byte of it is that of the last
-- change over it, or the old one where there is none, and the changed ranges are queued in their
-- order; if it is wrong, no byte changes and nothing is queued.
pub on_package-push_status :
    (spa_id my_id : Bytes) (seq : ℕ) (g : GeckoDatas) (src dst : Option Bytes) (len : ℕ)
    (changes : List StatusChange)
    → HasRoom (length g.bytes) changes
    → (r : Reaction) × (on_package spa_id my_id seq g
          (addressed src dst (push_status, (len, (changes, tt))))
        ≡ returns r)
      × (r.sent
          ≡ (if is_for dst my_id then addressed dst src (push_status_ack, (seq, tt)) ∷ [] else []))
      × (r.failed ≡ not (len == length changes))
      × (r.notified ≡ (len == length changes))
      × (length r.memory.bytes ≡ length g.bytes)
      × ((i : ℕ)
          → get_elem? r.memory.bytes i ≡ (
              if len == length changes
              then after_changes changes i (get_elem? g.bytes i)
              else get_elem? g.bytes i))
      × (r.memory.dirty ≡ (if len == length changes then g.dirty ++ ranges_of changes else g.dirty))
unfolding on_package react update_of
on_package-push_status spa_id my_id seq g src dst len changes h =
    let (sent, seq') = acknowledge my_id seq src dst in
    let (r, run, e, failed, told, size, bytes, dirty) =
      push_changes_lem sent seq' len changes g h in
    (r, run, e ∙ acknowledge-sent my_id seq src dst, failed, told, size, bytes, dirty)
