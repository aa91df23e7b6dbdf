-- ===== src/Spa/Interleaving.antt =====
-- The jobs of `init` of intouch2-mqtt/src/spa.rs that share the memory and the subscribers, in any
-- order: each step is what a job does while it holds the locks.
use intouch2_mqtt.Base.{ℕ, ◌≡◌, refl, Bool, true, List, [], ◌∷◌, Bytes, map, All, sym, subst, ◌∙◌}
use intouch2_mqtt.Outcome.{returns, eq_of_returns}
use intouch2_mqtt.Framing.{NetworkPackage}
use intouch2_mqtt.Gecko.{Range, GeckoDatas, is_within, write}
use intouch2_mqtt.Gecko.Notify.{
  Subscriber, subscribe, IsCovered, refreshed, refreshed-range, refreshed-value, length-slice,
  drain_lem, notify_subscribers,
}
use intouch2_mqtt.Gecko.Subscribe.{write-IsCovered, subscribe-IsCovered}
use intouch2_mqtt.Spa.Memory.{Reaction, on_package, on_package-covered}

-- The notifying job waits for valid data, waits for `notify_waiters`, or was woken by it.
pub data Notifier : Type 0 where
  starting waiting woken : Notifier

-- The state behind the locks, and where the notifying job is.
pub record Shared : Type 0 where
  pub memory : GeckoDatas
  pub subscribers : List Subscriber
  pub valid : Bool
  pub notifier : Notifier

-- `notify_waiters` wakes a job that waits, and no other.
abbrev pub notified : Bool → Notifier → Notifier
notified true waiting = woken
notified _ notifier = notifier

module _ (spa_id my_id : Bytes) where
  pub data Step : Shared → Shared → Type 0 where
    -- The job that follows the memory's changes handles a package.
    follows :
        (s : Shared) (seq : ℕ) (p : NetworkPackage) (r : Reaction)
        → on_package spa_id my_id seq s.memory p ≡ returns r
        → Step s (record s { memory = r.memory; notifier = notified r.notified s.notifier })
    -- The job that downloads the memory writes a part of it, and notifies behind the last one.
    downloads :
        (s : Shared) (part : Range) (bytes : Bytes) (last : Bool) (g : GeckoDatas)
        → write part bytes s.memory ≡ returns g
        → Step s (record s { memory = g; notifier = notified last s.notifier })
    validates : (s : Shared) → Step s (record s { valid = true })
    begins :
        (s : Shared)
        → s.valid ≡ true
        → s.notifier ≡ starting
        → Step s (record s { notifier = waiting })
    notifies :
        (s : Shared) (g : GeckoDatas) (subscribers : List Subscriber)
        → s.notifier ≡ woken
        → notify_subscribers s.memory s.subscribers ≡ returns (g, subscribers)
        → Step s (record s { memory = g; subscribers = subscribers; notifier = waiting })
    subscribes :
        (s : Shared) (range : Range) (new : Subscriber) (subscribers : List Subscriber)
        → is_within range s.memory.bytes ≡ true
        → subscribe range s.memory s.subscribers ≡ returns (new, subscribers)
        → Step s (record s { subscribers = subscribers })

  pub data Reach : Shared → Shared → Type 0 where
    stays : (s : Shared) → Reach s s
    goes : (s t u : Shared) → Step s t → Reach t u → Reach s u

-- Every subscriber is covered.
abbrev pub IsFollowed : Shared → Type 0
IsFollowed s = All (IsCovered s.memory.dirty s.memory.bytes) s.subscribers

-- A subscriber that was told has the current bytes, with nothing queued.
IsCovered-refreshed :
    (dirty : List Range) (bytes : Bytes) (s : Subscriber)
    → IsCovered dirty bytes s
    → IsCovered [] bytes (refreshed bytes s)
IsCovered-refreshed dirty bytes s c =
    rw (refreshed-range bytes s, refreshed-value bytes s)
      (c.0, (length-slice s.range bytes c.0, λ q. refl))

All-refreshed :
    (dirty : List Range) (bytes : Bytes) (subscribers : List Subscriber)
    → All (IsCovered dirty bytes) subscribers
    → All (IsCovered [] bytes) (map (refreshed bytes) subscribers)
All-refreshed dirty bytes [] c = tt
All-refreshed dirty bytes (s ∷ subscribers) (c, cs) =
    (IsCovered-refreshed dirty bytes s c, All-refreshed dirty bytes subscribers cs)

-- The same for what a run of the notifying job gave.
IsFollowed-notifies :
    (s : Shared) (told : GeckoDatas × List Subscriber)
    → notify_subscribers s.memory s.subscribers ≡ returns told
    → IsFollowed s
    → All (IsCovered told.0.dirty told.0.bytes) told.1
IsFollowed-notifies s told e c =
    subst (λ (t : GeckoDatas × List Subscriber). All (IsCovered t.0.dirty t.0.bytes) t.1)
      (eq_of_returns (sym (drain_lem s.memory.dirty s.memory.bytes s.subscribers c) ∙ e))
      (All-refreshed s.memory.dirty s.memory.bytes s.subscribers c)

-- The same for the list behind a subscription.
IsFollowed-subscribes :
    (s : Shared) (range : Range) (added : Subscriber × List Subscriber)
    → is_within range s.memory.bytes ≡ true
    → subscribe range s.memory s.subscribers ≡ returns added
    → IsFollowed s
    → All (IsCovered s.memory.dirty s.memory.bytes) added.1
IsFollowed-subscribes s range added w e c =
    let (x, xs, run, _, _, all) = subscribe-IsCovered range s.memory s.subscribers w c in
    subst (λ (t : Subscriber × List Subscriber). All (IsCovered s.memory.dirty s.memory.bytes) t.1)
      (eq_of_returns (sym run ∙ e)) all

module _ (spa_id my_id : Bytes) where
  IsFollowed-Step : (s t : Shared) → Step spa_id my_id s t → IsFollowed s → IsFollowed t
  IsFollowed-Step _ _ (follows s seq p r e) c =
      on_package-covered spa_id my_id seq s.memory p r s.subscribers e c
  IsFollowed-Step _ _ (downloads s part bytes last g e) c =
      write-IsCovered part bytes s.memory g e s.subscribers c
  IsFollowed-Step _ _ (validates s) c = c
  IsFollowed-Step _ _ (begins s v n) c = c
  IsFollowed-Step _ _ (notifies s g subscribers n e) c = IsFollowed-notifies s (g, subscribers) e c
  IsFollowed-Step _ _ (subscribes s range new subscribers w e) c =
      IsFollowed-subscribes s range (new, subscribers) w e c

  IsFollowed-Reach : (s t : Shared) → Reach spa_id my_id s t → IsFollowed s → IsFollowed t
  IsFollowed-Reach _ _ (stays s) c = c
  IsFollowed-Reach _ _ (goes s t u step rest) c =
      IsFollowed-Reach t u rest (IsFollowed-Step s t step c)

  -- From a state in which every subscriber is covered, in every state that the jobs reach in any
  -- order (following changes, downloading parts, marking the data as valid, notifying, and new
  -- subscriptions, each a step where it does not panic), the notifying job does not panic, leaves
  -- the memory as it is and the queue empty, and every subscriber holds the current bytes of its
  -- range.
  pub Reach-notify :
      (s t : Shared)
      → Reach spa_id my_id s t
      → IsFollowed s
      → (told : GeckoDatas) × (subscribers : List Subscriber) × (notify_subscribers t.memory
            t.subscribers
          ≡ returns (told, subscribers))
        × (told.bytes ≡ t.memory.bytes)
        × (told.dirty ≡ [])
        × All (IsCovered [] t.memory.bytes) subscribers
  Reach-notify s t reach c =
      let c' = IsFollowed-Reach s t reach c in
      (
        record { bytes = t.memory.bytes; dirty = [] },
        map (refreshed t.memory.bytes) t.subscribers,
        drain_lem t.memory.dirty t.memory.bytes t.subscribers c',
        refl,
        refl,
        All-refreshed t.memory.dirty t.memory.bytes t.subscribers c',
      )
