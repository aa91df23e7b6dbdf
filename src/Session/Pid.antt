-- ===== src/Session/Pid.antt =====
-- `AtomicPid` of intouch2-mqtt/src/mqtt_session.rs. The conversion `Pid::try_from` of the crate
-- mqttrs is a parameter: it refuses zero, and only zero.
use intouch2_mqtt.Base.{
  ℕ, zero, suc, ◌+◌, ◌-◌, ◌%◌, ◌^◌, ◌<◌, ◌≡◌, ◌≢◌, refl, ap, ◌∙◌, Option, none, some, arith, inl,
  inr, le_or_lt,
}

-- `Default for AtomicPid`
abbrev pub first_pid : ℕ
first_pid = 1

-- The loop of `next_pid` on fuel: the id, and the counter behind it.
abbrev pub found_or : Option ℕ → ℕ → Option (ℕ × ℕ) → Option (ℕ × ℕ)
found_or (some pid) counter again = some (pid, counter)
found_or none counter again = again

-- `fetch_add(1)` on an `AtomicU16`
abbrev pub increment : ℕ → ℕ
increment counter = (counter + 1) % 2 ^ 16

unfoldable pub next_pid : (ℕ → Option ℕ) → ℕ → ℕ → Option (ℕ × ℕ)
next_pid try_from zero counter = none
next_pid try_from (suc fuel) counter =
    found_or (try_from counter) (increment counter) (next_pid try_from fuel (increment counter))

module _ (try_from : ℕ → Option ℕ) (refuses_zero : try_from 0 ≡ none)
    (takes_others : (n : ℕ) → 0 < n → n < 2 ^ 16 → try_from n ≡ some n) where
  next_pid-positive :
      (fuel counter : ℕ)
      → 0 < counter
      → counter < 2 ^ 16
      → next_pid try_from (suc fuel) counter ≡ some (counter, increment counter)
  unfolding next_pid
  next_pid-positive fuel counter h k = rw (takes_others counter h k) refl

  next_pid-zero : next_pid try_from 2 0 ≡ some (1, 2)
  unfolding next_pid
  next_pid-zero = rw (refuses_zero, takes_others 1 (omega arith) (omega arith)) refl

  increment_below : (n : ℕ) → increment n < 2 ^ 16
  increment_below n = omega arith

  -- If the conversion to a packet id refuses zero and takes every other 16-bit number as it is:
  -- from any 16-bit counter, two turns of the loop are enough for a packet id, which is not zero
  -- and fits in 16 bits, and the next call gives another one.
  pub next_pid_twice :
      (counter : ℕ)
      → counter < 2 ^ 16
      → (pid pid' next next' : ℕ) × (next_pid try_from 2 counter ≡ some (pid, next))
        × (next_pid try_from 2 next ≡ some (pid', next'))
        × (0 < pid)
        × (pid < 2 ^ 16)
        × (next < 2 ^ 16)
        × (pid ≢ pid')
  next_pid_twice zero h = (
    1,
    2,
    2,
    increment 2,
    next_pid-zero,
    next_pid-positive 1 2 (omega arith) (omega arith),
    omega arith,
    omega arith,
    omega arith,
    λ e. absurd (omega arith),
  )
  next_pid_twice (suc counter) h = elim (le_or_lt (suc counter + 1) (2 ^ 16 - 1)) [
    | inl inside ↦
        let c = suc counter in
        let e : increment c ≡ c + 1 = omega arith in
        (
          c,
          increment c,
          increment c,
          increment (increment c),
          next_pid-positive 1 c (omega arith) h,
          next_pid-positive 1 (increment c) (omega arith) (omega arith),
          omega arith,
          h,
          omega arith,
          λ same. absurd (omega arith),
        )
    | inr last ↦
        let c = suc counter in
        let z : increment c ≡ 0 = omega arith in
        (
          c,
          1,
          0,
          2,
          next_pid-positive 1 c (omega arith) h ∙ ap (λ n. some (c, n)) z,
          next_pid-zero,
          omega arith,
          h,
          omega arith,
          λ same. absurd (omega arith),
        )
  ]
