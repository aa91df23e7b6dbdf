-- ===== src/Mapping/Lifecycle.antt =====
-- `new`, `reset` and `start` of `Mapping` in intouch2-mqtt/src/mapping.rs. A lock stands for the first
-- publication of a state: its job holds it until then, or until it ends without one.
use intouch2_mqtt.Base.{
  ℕ, ◌+◌, ◌≡◌, ◌≢◌, refl, ap, arith, subst, sym, Bool, true, false, ◌||◌, List, [], ◌∷◌, ◌==◌,
  if◌then◌else◌, All, ◌⊎◌, inl, inr,
}

-- The number of jobs, the locks with the last one first, and whether jobs may publish.
pub record Mapping : Type 0 where
  pub jobs : ℕ
  pub uninitialized : List ℕ
  pub active : Bool

abbrev pub new_mapping : Mapping
new_mapping = record { jobs = 0; uninitialized = []; active = false }

abbrev pub reset : Mapping → Mapping
reset mapping = record mapping { jobs = 0; uninitialized = []; active = false }

-- A state's job with its lock.
abbrev pub add_state : Mapping → ℕ → Mapping
add_state mapping lock = record mapping {
  jobs = mapping.jobs + 1;
  uninitialized = lock ∷ mapping.uninitialized;
}

-- What `start` sees while it waits for a lock: a job that has published for the first time and drops
-- its guard, a job that ends before that with an error and drops its guard too, another turn of the
-- jobs or of the session, or a turn that reports a failure.
pub data StartEvent : Type 0 where
  first_sent : ℕ → StartEvent
  job_ended : ℕ → StartEvent
  ticked : StartEvent
  tick_failed : StartEvent

-- How `start` ends, with the locks that it has not popped.
pub data Start : Type 0 where
  started : Start
  still_waits : List ℕ → Start
  start_failed : List ℕ → Start

abbrev pub locks_left : Start → List ℕ
locks_left started = []
locks_left (still_waits locks) = locks
locks_left (start_failed locks) = locks

abbrev pub is_free : ℕ → List ℕ → Bool
is_free lock [] = false
is_free lock (l ∷ free) = lock == l || is_free lock free

-- The locks from the last one that is still held on.
abbrev pub still_held : List ℕ → List ℕ → List ℕ
still_held free [] = []
still_held free (lock ∷ locks) =
    let rest = still_held free locks in if is_free lock free then rest else lock ∷ locks

abbrev pub unless_done : List ℕ → Start → Start
unless_done [] waiting = started
unless_done (lock ∷ locks) waiting = waiting

-- The loop of `start`, with the locks that are free already.
unfoldable pub start_from : List ℕ → List ℕ → List StartEvent → Start
start_from free locks [] = unless_done (still_held free locks) (still_waits (still_held free locks))
start_from free locks (first_sent lock ∷ events) =
    unless_done (still_held free locks) (start_from (lock ∷ free) (still_held free locks) events)
start_from free locks (job_ended lock ∷ events) =
    unless_done (still_held free locks) (start_from (lock ∷ free) (still_held free locks) events)
start_from free locks (ticked ∷ events) =
    unless_done (still_held free locks) (start_from free (still_held free locks) events)
start_from free locks (tick_failed ∷ events) =
    unless_done (still_held free locks) (start_failed (still_held free locks))

abbrev pub start : Mapping → List StartEvent → Mapping × Start
start mapping events =
    let end = start_from [] mapping.uninitialized events in
    (record mapping { active = true; uninitialized = locks_left end }, end)

-- The locks whose jobs publish for the first time.
abbrev pub sent_in : List StartEvent → List ℕ
sent_in [] = []
sent_in (first_sent lock ∷ events) = lock ∷ sent_in events
sent_in (_ ∷ events) = sent_in events

-- The locks whose jobs end before that.
abbrev pub ended_in : List StartEvent → List ℕ
ended_in [] = []
ended_in (job_ended lock ∷ events) = lock ∷ ended_in events
ended_in (_ ∷ events) = ended_in events

-- The job of a lock publishes, or it ends before that.
abbrev pub IsReleased : List StartEvent → ℕ → Type 0
IsReleased events lock =
    (is_free lock (sent_in events) ≡ true) ⊎ (is_free lock (ended_in events) ≡ true)

-- A lock is free, or becomes free.
abbrev IsFreed : List ℕ → List StartEvent → ℕ → Type 0
IsFreed free events lock = (is_free lock free ≡ true) ⊎ IsReleased events lock

-- What holds of the locks that are still held, if it holds of the free ones, holds of all.
still_held-All :
    (P : ℕ → Type 0) (free locks : List ℕ)
    → ((lock : ℕ) → is_free lock free ≡ true → P lock)
    → All P (still_held free locks)
    → All P locks
still_held-All P free [] h all = tt
still_held-All P free (lock ∷ locks) h all =
    split (is_free lock free) refl all (still_held-All P free locks h)
  where
    split :
        (b : Bool)
        → is_free lock free ≡ b
        → All P (if b then still_held free locks else lock ∷ locks)
        → (All P (still_held free locks) → All P locks)
        → P lock × All P locks
    split true e rest more = (h lock e, more rest)
    split false e rest more = rest

All-map : (P Q : ℕ → Type 0) (locks : List ℕ) → ((l : ℕ) → P l → Q l) → All P locks → All Q locks
All-map P Q [] f all = tt
All-map P Q (l ∷ locks) f (h, all) = (f l h, All-map P Q locks f all)

unless_done_lem :
    (locks : List ℕ) (waiting : Start)
    → unless_done locks waiting ≡ started
    → (locks ≡ []) ⊎ (waiting ≡ started)
unless_done_lem [] waiting h = inl refl
unless_done_lem (lock ∷ locks) waiting h = inr h

IsFreed-none :
    (free locks : List ℕ) (events : List StartEvent)
    → still_held free locks ≡ []
    → All (IsFreed free events) locks
IsFreed-none free locks events h =
    still_held-All (IsFreed free events) free locks (λ l e. inl e)
      (subst (All (IsFreed free events)) (sym h) tt)

freed_head :
    (lock l : ℕ) (free : List ℕ)
    → is_free l (lock ∷ free) ≡ true
    → ((l == lock) ≡ true) ⊎ (is_free l free ≡ true)
freed_head lock l free h = ground arith

freed_later : (lock l : ℕ) (free : List ℕ) → is_free l free ≡ true → is_free l (lock ∷ free) ≡ true
freed_later lock l free h = ground arith

freed_here : (lock l : ℕ) (free : List ℕ) → (l == lock) ≡ true → is_free l (lock ∷ free) ≡ true
freed_here lock l free h = rw h

IsFreed-first_sent :
    (lock : ℕ) (free : List ℕ) (events : List StartEvent) (l : ℕ)
    → IsFreed (lock ∷ free) events l
    → IsFreed free (first_sent lock ∷ events) l
IsFreed-first_sent lock free events l (inr (inl h)) =
    inr (inl (freed_later lock l (sent_in events) h))
IsFreed-first_sent lock free events l (inr (inr h)) = inr (inr h)
IsFreed-first_sent lock free events l (inl h) = elim (freed_head lock l free h) [
  | inl e ↦ inr (inl (freed_here lock l (sent_in events) e))
  | inr k ↦ inl k
]

IsFreed-job_ended :
    (lock : ℕ) (free : List ℕ) (events : List StartEvent) (l : ℕ)
    → IsFreed (lock ∷ free) events l
    → IsFreed free (job_ended lock ∷ events) l
IsFreed-job_ended lock free events l (inr (inl h)) = inr (inl h)
IsFreed-job_ended lock free events l (inr (inr h)) =
    inr (inr (freed_later lock l (ended_in events) h))
IsFreed-job_ended lock free events l (inl h) = elim (freed_head lock l free h) [
  | inl e ↦ inr (inr (freed_here lock l (ended_in events) e))
  | inr k ↦ inl k
]

IsFreed-start_from :
    (free locks : List ℕ) (events : List StartEvent)
    → start_from free locks events ≡ started
    → All (IsFreed free events) locks
unfolding start_from
IsFreed-start_from free locks [] h =
    elim (unless_done_lem (still_held free locks) (still_waits (still_held free locks)) h) [
      | inl done ↦ IsFreed-none free locks [] done
      | inr e ↦ absurd (waits_ne (still_held free locks) e)
    ]
  where
    waits_ne : (left : List ℕ) → still_waits left ≢ started
    waits_ne left e = cc
IsFreed-start_from free locks (first_sent lock ∷ events) h =
    elim (unless_done_lem (still_held free locks) _ h) [
      | inl done ↦ IsFreed-none free locks (first_sent lock ∷ events) done
      | inr e ↦
          still_held-All (IsFreed free (first_sent lock ∷ events)) free locks (λ l k. inl k)
            (All-map (IsFreed (lock ∷ free) events) (IsFreed free (first_sent lock ∷ events))
              (still_held free locks) (IsFreed-first_sent lock free events)
              (IsFreed-start_from (lock ∷ free) (still_held free locks) events e))
    ]
IsFreed-start_from free locks (job_ended lock ∷ events) h =
    elim (unless_done_lem (still_held free locks) _ h) [
      | inl done ↦ IsFreed-none free locks (job_ended lock ∷ events) done
      | inr e ↦
          still_held-All (IsFreed free (job_ended lock ∷ events)) free locks (λ l k. inl k)
            (All-map (IsFreed (lock ∷ free) events) (IsFreed free (job_ended lock ∷ events))
              (still_held free locks) (IsFreed-job_ended lock free events)
              (IsFreed-start_from (lock ∷ free) (still_held free locks) events e))
    ]
IsFreed-start_from free locks (ticked ∷ events) h =
    elim (unless_done_lem (still_held free locks) _ h) [
      | inl done ↦ IsFreed-none free locks (ticked ∷ events) done
      | inr e ↦
          still_held-All (IsFreed free (ticked ∷ events)) free locks (λ l k. inl k)
            (IsFreed-start_from free (still_held free locks) events e)
    ]
IsFreed-start_from free locks (tick_failed ∷ events) h =
    elim (unless_done_lem (still_held free locks) (start_failed (still_held free locks)) h) [
      | inl done ↦ IsFreed-none free locks (tick_failed ∷ events) done
      | inr e ↦ absurd (failed_ne (still_held free locks) e)
    ]
  where
    failed_ne : (left : List ℕ) → start_failed left ≢ started
    failed_ne left e = cc

released : (events : List StartEvent) (l : ℕ) → IsFreed [] events l → IsReleased events l
released events l (inr h) = h
released events l (inl h) = cc

-- When start ends without a failure, jobs may publish, no lock is left, and every job of a state
-- of the mapping has published for the first time while start waited, or has ended before that.
pub start-sent :
    (mapping : Mapping) (events : List StartEvent)
    → (start mapping events).1 ≡ started
    → ((start mapping events).0.active ≡ true)
      × ((start mapping events).0.uninitialized ≡ [])
      × All (IsReleased events) mapping.uninitialized
start-sent mapping events h = (
  refl,
  ap locks_left h,
  All-map (IsFreed [] events) (IsReleased events) mapping.uninitialized (released events)
      (IsFreed-start_from [] mapping.uninitialized events h),
)
