-- ===== src/Spa.antt =====
-- The client of the spa: intouch2-mqtt/src/spa.rs. Each job is a function of what its channels
-- give it; the intervals, the locks and the channels themselves are the runtime's.
pub mod Commands
pub mod Connect
pub mod Memory
pub mod Download
pub mod Interleaving
mod Examples
use intouch2_mqtt.Base.{
  ℕ, suc, ◌+◌, ◌%◌, ◌^◌, ◌≡◌, Bool, true, false, Option, none, some, List, [], ◌∷◌, ◌++◌, Bytes,
  codes, beq, leb, ltb, ◌==◌, if◌then◌else◌, length, take, drop,
}
use intouch2_mqtt.Outcome.{Outcome, returns, panics, ◌>>=◌}
use intouch2_mqtt.Object.{
  Kind, NetworkPackageData, Payload, format_of, StatusChange, ping, pong, get_version, version,
  set_status, push_status, push_status_ack, request_status, status, get_watercare, watercare_get,
  watercare_set, set_watercare,
}
use intouch2_mqtt.Framing.{NetworkPackage, addressed, hello}
use intouch2_mqtt.Gecko.{Range, GeckoDatas, new, write}

-- `seq.fetch_add(1, Ordering::Relaxed)` on an `AtomicU8`: the next value.
abbrev pub next_seq : ℕ → ℕ
next_seq seq = (seq + 1) % 2 ^ 8

-- `iter().position(|x| *x == '|' as u8).unwrap_or(len)`
abbrev pub position : Bytes → ℕ
position [] = 0
position (x ∷ xs) = let rest = position xs in if x == 124 then 0 else suc rest

-- `(receiver[0..pos], receiver[pos + 1..])`
unfoldable pub split_name : Bytes → Outcome (Bytes × Bytes)
split_name receiver =
    let pos = position receiver in
    if leb (pos + 1) (length receiver)
    then returns (take pos receiver, drop (pos + 1) receiver)
    else panics

-- The part of a `SpaConnection` that does not belong to the runtime.
pub record SpaConnection : Type 0 where
  pub src : Bytes
  pub dst : Bytes
  pub name : Bytes
  pub seq : ℕ
  pub spa_version : Payload (format_of version)
  pub state : GeckoDatas

-- What `SpaConnection::new` gives; `pipe_failed` is the end of the receiver.
pub data Connection : Type 0 where
  connected : SpaConnection → Connection
  unexpected_answer : NetworkPackage → Connection
  pipe_failed : Connection

-- The loop of `new` that waits for the version.
unfoldable pub wait_version : ℕ → Bytes → Bytes → Bytes → List NetworkPackage → Connection
wait_version memory_size src dst name [] = pipe_failed
wait_version memory_size src dst name (addressed _ _ (version, v) ∷ rx) = connected (record {
  src = src;
  dst = dst;
  name = name;
  seq = 1;
  spa_version = v;
  state = new memory_size;
})
wait_version memory_size src dst name (hello _ ∷ rx) = wait_version memory_size src dst name rx
wait_version memory_size src dst name (msg ∷ rx) = unexpected_answer msg

-- `SpaConnection::new`: what it sends, and what it gives, from what `generate_uuid` gave and what
-- the pipe receives.
unfoldable pub connect :
    ℕ → Bytes → List NetworkPackage → Outcome (List NetworkPackage × Connection)
connect memory_size src [] = returns (hello (codes "1") ∷ [], pipe_failed)
connect memory_size src (hello receiver ∷ rx) = do
  (dst, name) ← split_name receiver
  returns (
    hello (codes "1") ∷ hello src ∷ addressed (some src) (some dst) (get_version, (0, tt)) ∷ [],
    wait_version memory_size src dst name rx,
  )
connect memory_size src (msg ∷ rx) = returns (hello (codes "1") ∷ [], unexpected_answer msg)

-- What the pinger's `select!` sees.
pub data PingEvent : Type 0 where
  tick : PingEvent
  received : NetworkPackage → PingEvent

pub data Pinger : Type 0 where
  alive : ℕ → Pinger
  connection_lost : Pinger

-- One turn of the pinger: its counter of unanswered pings.
unfoldable pub ping_step : ℕ → PingEvent → Pinger
ping_step unanswered tick =
    if ltb 10 (unanswered + 1) then connection_lost else alive (unanswered + 1)
ping_step unanswered (received (addressed _ _ (pong, _))) = alive 0
ping_step unanswered (received _) = alive unanswered

unfoldable pub pinger : ℕ → List PingEvent → Pinger
pinger unanswered [] = alive unanswered
pinger unanswered (e ∷ events) = elim (ping_step unanswered e) [
  | connection_lost ↦ connection_lost
  | alive n ↦ pinger n events
]

pub data SpaCommand : Type 0 where
  -- config_version, log_version, pack_type, pos, data
  set_status_command : ℕ → ℕ → ℕ → ℕ → Bytes → SpaCommand
  set_watercare_command : ℕ → SpaCommand

-- The commander: what it sends for a command, with both of its addresses, and the next sequence
-- number. A length that is not a `u8` is only reported.
unfoldable pub on_command : Bytes → Bytes → ℕ → SpaCommand → List NetworkPackage × ℕ
on_command src dst seq (set_watercare_command mode) =
    (addressed (some src) (some dst) (set_watercare, (seq, (mode, tt))) ∷ [], next_seq seq)
on_command src dst seq (set_status_command config_version log_version pack_type pos bytes) =
    if ltb (length bytes + 5) (2 ^ 8)
    then (
      addressed (some src) (some dst) (
        set_status,
        (seq, (pack_type, (length bytes + 5, (config_version, (log_version, (pos, (bytes, tt))))))),
      )
          ∷ [],
      next_seq seq,
    )
    else ([], seq)

-- The job of `init` clones `self.src` for both addresses.
abbrev pub command_job : SpaConnection → SpaCommand → List NetworkPackage × ℕ
command_job spa c = on_command spa.src spa.src spa.seq c

abbrev pub is_mode : Option ℕ → ℕ → Bool
is_mode none mode = false
is_mode (some old) mode = old == mode

-- The watercare job: the mode that it holds, and whether `send_if_modified` signals.
unfoldable pub on_watercare : Option ℕ → NetworkPackage → Option ℕ × Bool
on_watercare old (addressed _ _ (watercare_get, (mode, _))) =
    if is_mode old mode then (old, false) else (some mode, true)
on_watercare old (addressed _ _ (watercare_set, (mode, _))) =
    if is_mode old mode then (old, false) else (some mode, true)
on_watercare old _ = (old, false)

-- What the job that asks for the mode sends at each tick of its interval.
abbrev pub ask_watercare : SpaConnection → NetworkPackage
ask_watercare spa = addressed (some spa.src) (some spa.dst) (get_watercare, (spa.seq, tt))
