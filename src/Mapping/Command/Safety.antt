-- ===== src/Mapping/Command/Safety.antt =====
-- What a command of intouch2-mqtt/src/mapping.rs may write to the spa.
use intouch2_mqtt.Base.{
  ℕ, ◌+◌, ◌-◌, ◌%◌, ◌^◌, ◌<◌, ◌≡◌, ◌≢◌, refl, ap, sym, ◌∙◌, Bool, true, false, ◌&&◌, not, Option,
  none, some, Bytes, beq, beq_eq, ◌==◌, ==_iff, if◌then◌else◌, length, arith, eq_of_some, ◌⊎◌, inl,
  inr, leb, and_left, and_right, le_or_lt, Bool-cases,
}
use intouch2_mqtt.Gecko.{Range}
use intouch2_mqtt.Outcome.{returns, panics, bind-returns, if-returns_cases, eq_of_returns}
use intouch2_mqtt.Session.Packet.{
  Publish, Packet, connect_packet, connack, publish_packet, puback, pubrec, pubrel,
  subscribe_packet, suback, pingreq, pingresp, other,
}
use intouch2_mqtt.Spa.{SpaCommand, set_status_command}
use intouch2_mqtt.Mapping.Command.{
  Serde, CommandStatusType, u8_command, u16_command, array_command, CommandMappingType, set_status,
  set_watercare, multiple_commands, parse_command, command_range, wrapped, parse_u8, sized_status,
  watercare_or, command_of, on_broadcast,
}

abbrev pub address : CommandStatusType → ℕ
address (u8_command addr) = addr
address (u16_command addr) = addr
address (array_command addr len) = addr

abbrev pub size : CommandStatusType → ℕ
size (u8_command addr) = 1
size (u16_command addr) = 2
size (array_command addr len) = len

-- Bytes that a command may write: as many as it declares, inside the addresses of 16 bits, or none
-- where the build has no overflow checks.
abbrev pub Fits : Bool → CommandStatusType → ℕ → Bytes → Type 0
Fits checks type pos bytes =
    ((length bytes ≡ size type) × (pos + length bytes < 2 ^ 16))
    ⊎ ((checks ≡ false) × (length bytes ≡ 0))

-- What is known of a range that is computed.
abbrev IsRange : Bool → ℕ → ℕ → Range → Type 0
IsRange checks addr len range =
    (range.start ≡ addr)
    × (range.end ≡ (addr + len) % 2 ^ 16)
    × ((checks ≡ false) ⊎ (addr + len < 2 ^ 16))

wrapped-IsRange :
    (checks : Bool) (addr len : ℕ) (range : Range)
    → wrapped checks addr len ≡ returns range
    → IsRange checks addr len range
wrapped-IsRange checks addr len range h =
    elim (if-returns_cases (checks && leb (2 ^ 16) (addr + len)) panics _ range h) [
      | inl (over, e) ↦ cc
      | inr (inside, e) ↦
          let same = eq_of_returns e in
          (
            sym (ap (λ (r : Range). r.start) same),
            sym (ap (λ (r : Range). r.end) same),
            unchecked checks inside,
          )
    ]
  where
    unchecked :
        (b : Bool) → (b && leb (2 ^ 16) (addr + len)) ≡ false → (b ≡ false) ⊎ (addr + len < 2 ^ 16)
    unchecked true k = inr (ground arith)
    unchecked false k = inl refl

range-IsRange :
    (checks : Bool) (type : CommandStatusType) (range : Range)
    → command_range checks type ≡ returns range
    → IsRange checks (address type) (size type) range
range-IsRange checks (u8_command addr) range h = wrapped-IsRange checks addr 1 range h
range-IsRange checks (u16_command addr) range h = wrapped-IsRange checks addr 2 range h
range-IsRange checks (array_command addr len) range h = wrapped-IsRange checks addr len range h

range_len-Fits :
    (checks : Bool) (type : CommandStatusType) (range : Range) (bytes : Bytes)
    → address type < 2 ^ 16
    → size type < 2 ^ 16
    → IsRange checks (address type) (size type) range
    → range.end - range.start ≡ length bytes
    → Fits checks type (address type) bytes
range_len-Fits checks type range bytes h k (start, end, inr inside) e =
    inl (omega arith, omega arith)
range_len-Fits checks type range bytes h k (start, end, inl off) e =
    elim (le_or_lt (2 ^ 16) (address type + size type)) [
      | inl over ↦ inr (off, omega arith)
      | inr inside ↦ inl (omega arith, omega arith)
    ]

-- The numbers of a command are `u16`.
abbrev pub HasWords : CommandMappingType → Type 0
HasWords (set_status config log pack type) = (address type < 2 ^ 16) × (size type < 2 ^ 16)
HasWords _ = Unit

-- Where the command comes from.
abbrev pub IsAllowed : Bool → Serde → CommandMappingType → Bytes → ℕ → ℕ → ℕ → ℕ → Bytes → Type 0
IsAllowed checks serde command payload config log pack pos bytes =
    (type : CommandStatusType) × (command ≡ set_status config log pack type)
    × (parse_command serde type payload ≡ some bytes)
    × (pos ≡ address type)
    × Fits checks type pos bytes

sized_status-IsAllowed :
    (checks : Bool) (serde : Serde) (payload : Bytes) (a b c : ℕ) (type : CommandStatusType)
    (range : Range) (parsed : Option Bytes) (config log pack pos : ℕ) (bytes : Bytes)
    → address type < 2 ^ 16
    → size type < 2 ^ 16
    → IsRange checks (address type) (size type) range
    → parse_command serde type payload ≡ parsed
    → sized_status a b c range parsed ≡ some (set_status_command config log pack pos bytes)
    → IsAllowed checks serde (set_status a b c type) payload config log pack pos bytes
sized_status-IsAllowed checks serde payload a b c type range none config log pack pos bytes below
      small is e h =
    cc
sized_status-IsAllowed checks serde payload a b c type range (some xs) config log pack pos bytes
      below small is e h =
    sized (Bool-cases (range.end - range.start == length xs))
  where
    sized :
        ((range.end - range.start == length xs) ≡ true)
          ⊎ ((range.end - range.start == length xs) ≡ false)
        → IsAllowed checks serde (set_status a b c type) payload config log pack pos bytes
    sized (inl t) =
        let same : set_status_command a b c range.start xs
            ≡ set_status_command config log pack pos bytes =
          eq_of_some (rw t at h) in
        let ps : range.start ≡ pos = cc in
        let xs_bytes : xs ≡ bytes = cc in
        let commands : set_status a b c type ≡ set_status config log pack type = cc in
        let pos_is : pos ≡ address type = sym ps ∙ is.0 in
        (
          type,
          commands,
          e ∙ ap some xs_bytes,
          pos_is,
          rw pos_is (
              range_len-Fits checks type range bytes below small is
                ((==_iff _ _).0 t ∙ ap length xs_bytes)),
        )
    sized (inr f) = absurd_some (rw f at h)
      where
        absurd_some :
            none ≡ some (set_status_command config log pack pos bytes)
            → IsAllowed checks serde (set_status a b c type) payload config log pack pos bytes
        absurd_some k = cc

watercare_or-not_status :
    (mode : Option ℕ) (config log pack pos : ℕ) (bytes : Bytes)
    → watercare_or mode ≢ some (set_status_command config log pack pos bytes)
watercare_or-not_status none config log pack pos bytes h = cc
watercare_or-not_status (some mode) config log pack pos bytes h = cc

command_of-IsAllowed :
    (checks : Bool) (serde : Serde) (command : CommandMappingType) (payload : Bytes)
    (config log pack pos : ℕ) (bytes : Bytes)
    → HasWords command
    → command_of checks serde command payload
      ≡ returns (some (set_status_command config log pack pos bytes))
    → IsAllowed checks serde command payload config log pack pos bytes
unfolding command_of
command_of-IsAllowed checks serde (set_status a b c type) payload config log pack pos bytes (k, l)
      h =
    let (range, e, sent) = bind-returns (command_range checks type) _ _ h in
    sized_status-IsAllowed checks serde payload a b c type range _ config log pack pos bytes k l
      (range-IsRange checks type range e) refl (eq_of_returns sent)
command_of-IsAllowed checks serde set_watercare payload config log pack pos bytes k h =
    absurd (watercare_or-not_status (parse_u8 payload) config log pack pos bytes (eq_of_returns h))
command_of-IsAllowed checks serde (multiple_commands _) payload config log pack pos bytes k h = cc

-- A command that is sent was published on the topic, for the first time.
abbrev pub IsOnTopic : Bool → Serde → CommandMappingType → Bytes → Packet → SpaCommand → Type 0
IsOnTopic checks serde command topic packet sent =
    (p : Publish) × (packet ≡ publish_packet p)
    × (p.dup ≡ false)
    × (p.topic_name ≡ topic)
    × (command_of checks serde command p.payload ≡ returns (some sent))

not-true : (b : Bool) → not b ≡ true → b ≡ false
not-true true h = cc
not-true false h = refl

publish-IsOnTopic :
    (checks : Bool) (serde : Serde) (command : CommandMappingType) (topic : Bytes) (p : Publish)
    (b : Bool) (sent : SpaCommand)
    → (not p.dup && beq p.topic_name topic) ≡ b
    → (if b then command_of checks serde command p.payload else returns none) ≡ returns (some sent)
    → IsOnTopic checks serde command topic (publish_packet p) sent
publish-IsOnTopic checks serde command topic p true sent e h = (
  p,
  refl,
  not-true p.dup (and_left (not p.dup) (beq p.topic_name topic) e),
  beq_eq p.topic_name topic (and_right (not p.dup) (beq p.topic_name topic) e),
  h,
)
publish-IsOnTopic checks serde command topic p false sent e h = cc

on_broadcast-IsOnTopic :
    (checks : Bool) (serde : Serde) (command : CommandMappingType) (topic : Bytes) (packet : Packet)
    (sent : SpaCommand)
    → on_broadcast checks serde command topic packet ≡ returns (some sent)
    → IsOnTopic checks serde command topic packet sent
unfolding on_broadcast
on_broadcast-IsOnTopic checks serde command topic (publish_packet p) sent h =
    publish-IsOnTopic checks serde command topic p _ sent refl h
on_broadcast-IsOnTopic checks serde command topic (connect_packet c) sent h = cc
on_broadcast-IsOnTopic checks serde command topic (connack b c) sent h = cc
on_broadcast-IsOnTopic checks serde command topic (puback p) sent h = cc
on_broadcast-IsOnTopic checks serde command topic (pubrec p) sent h = cc
on_broadcast-IsOnTopic checks serde command topic (pubrel p) sent h = cc
on_broadcast-IsOnTopic checks serde command topic (subscribe_packet p ts) sent h = cc
on_broadcast-IsOnTopic checks serde command topic (suback p cs) sent h = cc
on_broadcast-IsOnTopic checks serde command topic pingreq sent h = cc
on_broadcast-IsOnTopic checks serde command topic pingresp sent h = cc
on_broadcast-IsOnTopic checks serde command topic (other n) sent h = cc

-- In a build with or without overflow checks: if the addresses and sizes of a command are 16-bit
-- numbers and its job sends a set status to the spa, the packet was published to the command's
-- topic and not as a duplicate, the command is a set status with those versions and that type of
-- pack, the bytes are what the payload parses to, the position is the command's address, and
-- either there are as many bytes as the command declares and they end before 2 ^ 16, or the build
-- has no overflow checks and there are none.
pub on_broadcast-IsAllowed :
    (checks : Bool) (serde : Serde) (command : CommandMappingType) (topic : Bytes) (packet : Packet)
    (config log pack pos : ℕ) (bytes : Bytes)
    → HasWords command
    → on_broadcast checks serde command topic packet
      ≡ returns (some (set_status_command config log pack pos bytes))
    → (p : Publish) × (packet ≡ publish_packet p)
      × (p.dup ≡ false)
      × (p.topic_name ≡ topic)
      × IsAllowed checks serde command p.payload config log pack pos bytes
on_broadcast-IsAllowed checks serde command topic packet config log pack pos bytes words h =
    let (p, is, first, on_topic, sent) =
      on_broadcast-IsOnTopic checks serde command topic packet _ h in
    (
      p,
      is,
      first,
      on_topic,
      command_of-IsAllowed checks serde command p.payload config log pack pos bytes words sent,
    )
