-- ===== src/Program.antt =====
-- The jobs and the checks of arguments of intouch2-mqtt/src/main.rs.
pub mod Dumped
pub mod Changes
mod Examples
use intouch2_mqtt.Base.{
  ℕ, zero, suc, ◌+◌, ◌-◌, Bool, true, false, not, ◌&&◌, ◌||◌, Option, none, some, List, [], ◌∷◌,
  ◌++◌, Bytes, beq, codes, ◌==◌, if◌then◌else◌, length, take,
}
use intouch2_mqtt.Outcome.{Outcome, returns, panics, ◌>>=◌}
use intouch2_mqtt.Object.{NetworkPackageData, ping, pong}
use intouch2_mqtt.Session.Packet.{QosPid, at_most_once, Publish, Packet, publish_packet}
use intouch2_mqtt.Session.Connect.{MqttAuth, simple, no_auth, SessionBuilder}
use intouch2_mqtt.Session.Topic.{join}

-- The credentials of the arguments, or `InvalidArguments`.
abbrev pub auth_of : Option Bytes → Option Bytes → Option MqttAuth
auth_of (some username) (some password) = some (simple username password)
auth_of none none = some no_auth
auth_of none (some _) = none
auth_of (some _) none = none

abbrev pub availability_of : Bytes → Option Bytes → Option Bytes
availability_of base_topic none = none
availability_of base_topic (some availability) = some (join base_topic availability)

-- The session's parameters, with five seconds in milliseconds.
abbrev pub builder_of : Bytes → Bytes → Option Bytes → MqttAuth → SessionBuilder
builder_of base_topic discovery_topic availability auth = record {
  discovery_topic = discovery_topic;
  availability_topic = availability_of base_topic availability;
  base_topic = base_topic;
  auth = auth;
  keep_alive = 30;
  publish_retries = 30;
  publish_timeout = 5000;
}

-- A package that is not dumped.
abbrev pub is_keep_alive : NetworkPackageData → Bool
is_keep_alive (ping, _) = true
is_keep_alive (pong, _) = true
is_keep_alive _ = false

-- What becomes of a package that is to be published: `to_value` or `to_vec` may fail, and `send`.
pub data Sending : Type 0 where
  sent not_serialised not_sent : Sending

-- The queue with what was published: the loop goes on, or the job ends with an error.
pub data Dumping : Type 0 where
  goes_on ends : List NetworkPackageData × List NetworkPackageData → Dumping

-- What was published, with the packages that are left from the one on that ended the job.
pub record Dump : Type 0 where
  pub published : List NetworkPackageData
  pub left : List (NetworkPackageData × Sending)

-- `PartialEq` of the packages, which is derived, is a parameter.
module _ (package_eq : NetworkPackageData → NetworkPackageData → Bool) where
  -- `VecDeque::contains`
  abbrev pub contains : NetworkPackageData → List NetworkPackageData → Bool
  contains x [] = false
  contains x (y ∷ ys) = package_eq x y || contains x ys

  -- The job that dumps packages: one package, with what was published so far in front of it. The
  -- first of `recent` is the front of the queue. The capacity is that of `VecDeque::with_capacity`.
  abbrev pub make_room : ℕ → List NetworkPackageData → List NetworkPackageData
  make_room capacity recent =
      if length recent == capacity then take (length recent - 1) recent else recent

  abbrev pub publish_package :
      ℕ → List NetworkPackageData × List NetworkPackageData → NetworkPackageData → Sending → Dumping
  publish_package capacity (recent, published) x sent =
      goes_on (x ∷ make_room capacity recent, x ∷ published)
  publish_package capacity (recent, published) x not_serialised =
      ends (make_room capacity recent, published)
  publish_package capacity (recent, published) x not_sent =
      ends (x ∷ make_room capacity recent, published)

  abbrev pub dump_one :
      ℕ → List NetworkPackageData × List NetworkPackageData → NetworkPackageData × Sending → Dumping
  dump_one capacity (recent, published) (x, sending) =
      if is_keep_alive x || contains x recent
      then goes_on (recent, published)
      else publish_package capacity (recent, published) x sending

  abbrev pub dumped :
      Dumping
      → (List NetworkPackageData × List NetworkPackageData → Dump)
      → List (NetworkPackageData × Sending)
      → Dump
  dumped (goes_on state) rest left = rest state
  dumped (ends state) rest left = record { published = state.1; left = left }

  -- The loop, with the newest published package first.
  unfoldable pub dump :
      ℕ
      → List NetworkPackageData × List NetworkPackageData
      → List (NetworkPackageData × Sending)
      → Dump
  dump capacity state [] = record { published = state.1; left = [] }
  dump capacity state (x ∷ packages) =
      dumped (dump_one capacity state x) (λ state'. dump capacity state' packages) (x ∷ packages)

-- The packet for a package: below the topic of its kind, where its JSON has one key.
abbrev pub dump_topic : Bytes → Option Bytes → Bytes
dump_topic topic (some struct_name) = join topic struct_name
dump_topic topic none = topic

abbrev pub dump_packet : Bytes → Option Bytes → Bytes → Packet
dump_packet topic struct_name key = publish_packet (record {
  dup = false;
  qospid = at_most_once;
  retain = false;
  topic_name = dump_topic topic struct_name;
  payload = key;
})

-- `for i in 0..len`, from an index on: the changed bytes, with a panic behind the end of either.
unfoldable pub differences : ℕ → ℕ → Bytes → Bytes → Outcome (List (ℕ × ℕ))
differences i zero previous bytes = returns []
differences i (suc left) (old ∷ previous) (new ∷ bytes) =
    differences (i + 1) left previous bytes >>= λ rest.
    returns (if old == new then rest else (i, new) ∷ rest)
differences i (suc left) _ _ = panics

-- The loop that publishes the changes of each state that it sees.
unfoldable pub changes : ℕ → Bytes → List Bytes → Outcome (List (ℕ × ℕ))
changes len previous [] = returns []
changes len previous (bytes ∷ states) = differences 0 len previous bytes >>= λ now.
    changes len bytes states >>= λ later. returns (now ++ later)

-- Home Assistant has restarted: the mapping is sent again.
abbrev pub is_online : Bytes → Packet → Bool
is_online status_topic (publish_packet p) =
    not p.dup && (beq p.topic_name status_topic && beq p.payload (codes "online"))
is_online status_topic _ = false
