-- ===== src/Spa/Examples.antt =====
-- Runs of the client of the spa.
use intouch2_mqtt.Base.{
  ℕ, ◌≡◌, ◌≢◌, refl, arith, not, true, false, none, some, List, [], ◌∷◌, ◌++◌, Bytes, codes, length,
  get_elem?, map, All, ◌==◌, if◌then◌else◌,
}
use intouch2_mqtt.Outcome.{returns, panics}
use intouch2_mqtt.Object.{
  Payload, format_of, version, get_version, push_status, push_status_ack, StatusChange,
}
use intouch2_mqtt.Framing.{NetworkPackage, addressed, hello}
use intouch2_mqtt.Gecko.{GeckoDatas, new, write}
use intouch2_mqtt.Gecko.Notify.{Subscriber, IsCovered, notify_subscribers}
use intouch2_mqtt.Spa.Commands.{source, destination, command_job-destination}
use intouch2_mqtt.Spa.{SpaConnection, command_job, set_status_command, connect, connected}
use intouch2_mqtt.Spa.Connect.{connect-version, connect-NoBar}
use intouch2_mqtt.Spa.Interleaving.{
  Shared, waiting, woken, Reach, stays, goes, follows, Reach-notify,
}
use intouch2_mqtt.Spa.Memory.{
  Reaction, is_for, on_package, react, update_of, push_changes, acknowledge, apply_changes,
  on_package-covered, on_package-push_status, after_changes, ranges_of,
}
use intouch2_mqtt.Spa.Download.{Event, message, changed, timed_out, status_message}
use intouch2_mqtt.Spa.Download.Answers.{Answers}

-- Two parts of a memory of four bytes; the first attempt stops after a part, and a greeting comes
-- between.
abbrev part_1 : NetworkPackage
part_1 = status_message none none 0 1 (5 ∷ 6 ∷ [])

abbrev part_2 : NetworkPackage
part_2 = status_message none none 1 0 (7 ∷ 8 ∷ [])

abbrev blank : GeckoDatas
blank = new 4

abbrev first_read : GeckoDatas
first_read = record {
  bytes = 5 ∷ 6 ∷ 0 ∷ 0 ∷ [];
  dirty = record { start = 0; end = 2 } ∷ record { start = 0; end = 2 } ∷ [];
}

-- What a pushed change of two bytes leaves, of which the first was read already.
abbrev pushed_over : GeckoDatas
pushed_over = record {
  bytes = 5 ∷ 9 ∷ 9 ∷ 0 ∷ [];
  dirty = first_read.dirty ++ record { start = 1; end = 3 } ∷ [];
}

-- The push arrives as a message too, which the download passes over.
abbrev push : NetworkPackage
push = addressed none none (push_status, (1, (record { change = 1; bytes = 9 ∷ 9 ∷ [] } ∷ [], tt)))

abbrev answered : List Event
answered =
    message part_1
    ∷ timed_out
    ∷ message (hello (codes "SPA7"))
    ∷ message part_1
    ∷ changed pushed_over
    ∷ message push
    ∷ message part_2
    ∷ []

abbrev client_id : Bytes
client_id = codes "IOS1"

abbrev spa_id : Bytes
spa_id = codes "SPA7"

abbrev some_version : Payload (format_of version)
some_version = (1, (2, (3, (4, (5, (6, tt))))))

no_bar : All (λ x. x ≢ 124) spa_id
no_bar = (
  (λ h. absurd (omega arith)),
  ((λ h. absurd (omega arith)), ((λ h. absurd (omega arith)), ((λ h. absurd (omega arith)), tt))),
)

connect-version_example :
    connect 4 client_id (
      hello (spa_id ++ 124 ∷ codes "Pool")
      ∷ (map hello (codes "x" ∷ []) ++ addressed none none (version, some_version) ∷ []))
    ≡ returns (
      hello (codes "1")
          ∷ hello client_id
          ∷ addressed (some client_id) (some spa_id) (get_version, (0, tt))
          ∷ [],
      connected (record {
        src = client_id;
        dst = spa_id;
        name = codes "Pool";
        seq = 1;
        spa_version = some_version;
        state = new 4;
      }),
    )
connect-version_example =
    connect-version 4 client_id spa_id (codes "Pool") (codes "x" ∷ []) [] none none some_version
      no_bar

connect-NoBar_example : connect 4 client_id (hello spa_id ∷ []) ≡ panics
connect-NoBar_example = connect-NoBar 4 client_id spa_id [] no_bar

abbrev changes : List StatusChange
changes = record { change = 1; bytes = 9 ∷ 9 ∷ [] } ∷ []

abbrev memory : GeckoDatas
memory = record { bytes = 5 ∷ 6 ∷ 7 ∷ 8 ∷ []; dirty = [] }

-- Two changes, the second over a byte of the first.
abbrev two_changes : List StatusChange
two_changes =
    record { change = 0; bytes = 1 ∷ 2 ∷ [] } ∷ record { change = 1; bytes = 3 ∷ 4 ∷ [] } ∷ []

on_package-push_status_example :
    (r : Reaction) × (on_package spa_id client_id 0 memory
        (addressed (some spa_id) (some client_id) (push_status, (2, (two_changes, tt))))
      ≡ returns r)
    × (r.sent ≡ (
        if is_for (some client_id) client_id
        then addressed (some client_id) (some spa_id) (push_status_ack, (0, tt)) ∷ []
        else []))
    × (r.failed ≡ not (2 == length two_changes))
    × (r.notified ≡ (2 == length two_changes))
    × (length r.memory.bytes ≡ length memory.bytes)
    × ((i : ℕ)
        → get_elem? r.memory.bytes i ≡ (
            if 2 == length two_changes
            then after_changes two_changes i (get_elem? memory.bytes i)
            else get_elem? memory.bytes i))
    × (r.memory.dirty
        ≡ (if 2 == length two_changes then memory.dirty ++ ranges_of two_changes else memory.dirty))
on_package-push_status_example =
    on_package-push_status spa_id client_id 0 memory (some spa_id) (some client_id) 2 two_changes
      ((omega arith, refl), ((omega arith, refl), tt))

-- The four bytes that the example ends with.
two_changes_after :
    map (λ i. after_changes two_changes i (get_elem? memory.bytes i)) (0 ∷ 1 ∷ 2 ∷ 3 ∷ [])
    ≡ some 1 ∷ some 3 ∷ some 4 ∷ some 8 ∷ []
two_changes_after = refl

abbrev watched : List Subscriber
watched = record { range = record { start = 0; end = 2 }; value = 5 ∷ 6 ∷ []; version = 0 } ∷ []

abbrev pushed_memory : GeckoDatas
pushed_memory = record { bytes = 5 ∷ 9 ∷ 9 ∷ 8 ∷ []; dirty = record { start = 1; end = 3 } ∷ [] }

abbrev reaction : Reaction
reaction = record {
  memory = pushed_memory;
  seq = 1;
  sent = addressed (some client_id) (some spa_id) (push_status_ack, (0, tt)) ∷ [];
  notified = true;
  failed = false;
}

reaction_run :
    on_package spa_id client_id 0 memory
      (addressed (some spa_id) (some client_id) (push_status, (1, (changes, tt))))
    ≡ returns reaction
unfolding on_package react update_of push_changes acknowledge apply_changes write
reaction_run = refl

on_package-covered_example : All (IsCovered pushed_memory.dirty pushed_memory.bytes) watched
on_package-covered_example =
    on_package-covered spa_id client_id 0 memory
      (addressed (some spa_id) (some client_id) (push_status, (1, (changes, tt)))) reaction watched
      reaction_run ((refl, (refl, λ h. refl)), tt)

abbrev connection : SpaConnection
connection = record {
  src = client_id;
  dst = spa_id;
  name = codes "Pool";
  seq = 1;
  spa_version = some_version;
  state = new 4;
}

command_job-destination_example :
    All
      (λ p. (source p ≡ some client_id) × (destination p ≡ some client_id))
      (command_job connection (set_status_command 1 2 10 3 (9 ∷ []))).0
command_job-destination_example =
    command_job-destination connection (set_status_command 1 2 10 3 (9 ∷ []))

-- The jobs behind the download, with the notifying job waiting.
abbrev quiet : Shared
quiet = record { memory = memory; subscribers = watched; valid = true; notifier = waiting }

abbrev behind_push : Shared
behind_push = record {
  memory = reaction.memory;
  subscribers = watched;
  valid = true;
  notifier = woken;
}

push_reached : Reach spa_id client_id quiet behind_push
push_reached =
    goes quiet behind_push behind_push
      (follows quiet 0 (addressed (some spa_id) (some client_id) (push_status, (1, (changes, tt))))
        reaction reaction_run)
      (stays behind_push)

Reach-notify_example :
    (told : GeckoDatas) × (subscribers : List Subscriber) × (notify_subscribers behind_push.memory
        behind_push.subscribers
      ≡ returns (told, subscribers))
    × (told.bytes ≡ behind_push.memory.bytes)
    × (told.dirty ≡ [])
    × All (IsCovered [] behind_push.memory.bytes) subscribers
Reach-notify_example =
    Reach-notify spa_id client_id quiet behind_push push_reached ((refl, (refl, λ h. refl)), tt)
