-- ===== src/Gecko/Examples.antt =====
-- Runs of the memory's subscriptions.
use intouch2_mqtt.Base.{◌≡◌, refl, List, [], ◌∷◌, map, All}
use intouch2_mqtt.Outcome.{returns}
use intouch2_mqtt.Gecko.{Range, GeckoDatas, write}
use intouch2_mqtt.Gecko.Notify.{Subscriber, IsCovered, drain, drain_lem, refreshed}

abbrev front : Range
front = record { start = 0; end = 2 }

abbrev behind : Range
behind = record { start = 3; end = 4 }

abbrev memory : GeckoDatas
memory = record { bytes = 10 ∷ 11 ∷ 12 ∷ 13 ∷ []; dirty = [] }

-- The memory with its first byte changed.
abbrev changed : GeckoDatas
changed = record { bytes = 7 ∷ 11 ∷ 12 ∷ 13 ∷ []; dirty = record { start = 0; end = 1 } ∷ [] }

abbrev subscribers : List Subscriber
subscribers =
    record { range = front; value = 10 ∷ 11 ∷ []; version = 0 }
    ∷ record { range = behind; value = 13 ∷ []; version = 2 }
    ∷ []

memory-IsCovered : All (IsCovered memory.dirty memory.bytes) subscribers
memory-IsCovered = ((refl, (refl, λ h. refl)), ((refl, (refl, λ h. refl)), tt))

changed-IsCovered : All (IsCovered changed.dirty changed.bytes) subscribers
changed-IsCovered = ((refl, (refl, λ h. cc)), ((refl, (refl, λ h. refl)), tt))

changed-write : write (record { start = 0; end = 1 }) (7 ∷ []) memory ≡ returns changed
unfolding write
changed-write = refl

drain_example :
    drain changed.dirty changed.bytes subscribers
    ≡ returns
        (record { bytes = changed.bytes; dirty = [] }, map (refreshed changed.bytes) subscribers)
drain_example = drain_lem changed.dirty changed.bytes subscribers changed-IsCovered
