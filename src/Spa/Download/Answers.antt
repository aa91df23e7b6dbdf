-- ===== src/Spa/Download/Answers.antt =====
-- What the download of intouch2-mqtt/src/spa.rs makes of the spa's answers, while other jobs write to
-- the memory too.
use intouch2_mqtt.Base.{
  ℕ, ◌+◌, ◌<◌, ◌≡◌, refl, ap, sym, ◌∙◌, Option, List, [], ◌∷◌, ◌++◌, Bytes, length, take,
}
use intouch2_mqtt.Outcome.{returns}
use intouch2_mqtt.Framing.{NetworkPackage}
use intouch2_mqtt.Gecko.{Range, GeckoDatas, splice, write}
use intouch2_mqtt.Gecko.Overlay.{overlay, take-splice}
use intouch2_mqtt.Gecko.Slices.{write-returns, length-splice}
use intouch2_mqtt.Spa.Download.{Event, message, changed, timed_out, status_message}
use intouch2_mqtt.Spa.Download.Others.{IsOther}

-- `Answers total expected front events rest image`: with `front` read and `expected` next, the spa
-- sends the parts of a memory in their order, up to `total` bytes; between them come other messages,
-- and other jobs write over what was read; after a time-out the spa starts again. `image` is the
-- parts with what was written over them later, and `rest` is what follows the last part.
pub data Answers (total : ℕ) : ℕ → Bytes → List Event → List Event → Bytes → Type 0 where
  last :
      {src dst : Option Bytes} {expected next : ℕ} {front bytes : Bytes} {rest : List Event}
      → length front + length bytes ≡ total
      → Answers total expected front
          (message (status_message src dst expected next bytes) ∷ rest)
          rest
          (front ++ bytes)
  more :
      {src dst : Option Bytes} {expected next : ℕ} {front bytes : Bytes} {events rest : List Event}
      {image : Bytes}
      → length front + length bytes < total
      → Answers total next (front ++ bytes) events rest image
      → Answers total expected front
          (message (status_message src dst expected next bytes) ∷ events)
          rest
          image
  other :
      {expected : ℕ} {front : Bytes} {p : NetworkPackage} {events rest : List Event} {image : Bytes}
      → IsOther expected p
      → Answers total expected front events rest image
      → Answers total expected front (message p ∷ events) rest image
  written :
      {expected : ℕ} {front : Bytes} {events rest : List Event} {image : Bytes} (g : GeckoDatas)
      (pos : ℕ) (new : Bytes)
      → length g.bytes ≡ total
      → take (length front) g.bytes ≡ overlay pos new front
      → Answers total expected (overlay pos new front) events rest image
      → Answers total expected front (changed g ∷ events) rest image
  retry :
      {expected : ℕ} {front : Bytes} {events rest : List Event} {image : Bytes}
      → Answers total 0 [] events rest image
      → Answers total expected front (timed_out ∷ events) rest image

abbrev pub part : Bytes → Bytes → Range
part front new = record { start = length front; end = length front + length new }

-- The memory with one more part written.
abbrev with_part : Bytes → Bytes → GeckoDatas → GeckoDatas
with_part front new g = record {
  bytes = splice (part front new) new g.bytes;
  dirty = g.dirty ++ part front new ∷ [];
}

-- What a write of another job does to the part of the memory that was read.
pub write-overlay :
    (pos : ℕ) (new front : Bytes) (g g' : GeckoDatas)
    → write (record { start = pos; end = pos + length new }) new g ≡ returns g'
    → take (length front) g.bytes ≡ front
    → (length g'.bytes ≡ length g.bytes) × (take (length front) g'.bytes ≡ overlay pos new front)
write-overlay pos new front g g' h s =
    let r : Range = record { start = pos; end = pos + length new } in
    let (a, b, c, e) = write-returns r new g g' h in
    (
      ap (λ (x : GeckoDatas). length x.bytes) (sym e) ∙ length-splice r new g.bytes a b c,
      ap (λ (x : GeckoDatas). take (length front) x.bytes) (sym e)
          ∙ take-splice (length front) r new g.bytes refl b
          ∙ ap (overlay pos new) s,
    )
