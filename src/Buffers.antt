-- ===== src/Buffers.antt =====
-- The pool of buffers of intouch2-mqtt/src/lib.rs. A slot that is not initialised is `none`, and
-- `assume_init` of it is a panic of the model.
pub mod Stack
mod Examples
use intouch2_mqtt.Base.{ℕ, ◌+◌, ◌-◌, Option, none, some, ◌==◌, ltb, if◌then◌else◌}
use intouch2_mqtt.Outcome.{Outcome, returns, panics, ◌>>=◌, expect}
use intouch2_mqtt.ForwardMap.{update}

-- `Buffers<COUNT, T>`
pub record Buffers (T : Type 0) : Type 0 where
  pub bufs : ℕ → Option T
  pub size : ℕ

-- `Buffers::new`
abbrev pub new_buffers : {T : Type 0} → Buffers T
new_buffers = record { bufs = λ i. none; size = 0 }

-- `take_or`, with what `create` would give.
unfoldable pub take_or : {T : Type 0} → T → Buffers T → Outcome (T × Buffers T)
take_or create b =
    if b.size == 0
    then returns (create, b)
    else (expect (b.bufs (b.size - 1)) >>= λ buf.
        returns (buf, record { bufs = update b.bufs (b.size - 1) none; size = b.size - 1 }))

-- `release`; a buffer for which there is no slot is dropped, and a size above the count is out of
-- bounds.
unfoldable pub release : {T : Type 0} → ℕ → T → Buffers T → Outcome (Buffers T)
release count buf b =
    if b.size == count
    then returns b
    else if ltb b.size count
    then returns record { bufs = update b.bufs b.size (some buf); size = b.size + 1 }
    else panics
