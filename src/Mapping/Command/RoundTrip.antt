-- ===== src/Mapping/Command/RoundTrip.antt =====
-- A published state can be sent back as a command.
use intouch2_mqtt.Base.{
  ℕ, ◌+◌, ◌*◌, ◌-◌, ◌/◌, ◌%◌, ◌^◌, ◌<◌, ◌≡◌, refl, ap, ◌∙◌, false, some, [], ◌∷◌, Bytes, Bool, leb,
  Bool-cases, inl, inr, beq_refl, ==_eq, length, arith, All,
}
use intouch2_mqtt.Object.Codec.{to_be_bytes}
use intouch2_mqtt.Outcome.{returns}
use intouch2_mqtt.Session.Packet.{Publish, publish_packet}
use intouch2_mqtt.Spa.{set_status_command}
use intouch2_mqtt.Gecko.{Range}
use intouch2_mqtt.Mapping.{
  number, array_value, MappingType, u8, u16, array, range_from, View, numbers,
}
use intouch2_mqtt.Mapping.Publisher.{IsSized, big_endian, value_of}
use intouch2_mqtt.Mapping.Command.{
  Serde, CommandStatusType, u8_command, u16_command, array_command, set_status, parse_command,
  command_range, wrapped, one_of, two_of, sized_status, command_of, on_broadcast,
}
use intouch2_mqtt.Mapping.Command.Safety.{address, size}

-- The state of the bytes that a command writes.
abbrev pub state_of : CommandStatusType → MappingType
state_of (u8_command addr) = u8 addr
state_of (u16_command addr) = u16 addr
state_of (array_command addr len) = array addr len

-- What is written can be read again as the same numbers.
pub record IsFaithful (serde : Serde) : Type 0 where
  pub of_u8 : (n : ℕ) → n < 2 ^ 8 → serde.u8_from_slice (serde.to_vec (number n)) ≡ some n
  pub of_u16 : (n : ℕ) → n < 2 ^ 16 → serde.u16_from_slice (serde.to_vec (number n)) ≡ some n
  pub of_bytes :
      (bytes : Bytes)
      → All (λ b. b < 2 ^ 8) bytes
      → serde.bytes_from_slice (serde.to_vec (array_value (numbers bytes))) ≡ some bytes

one_of-number :
    (serde : Serde) (bytes : Bytes)
    → IsFaithful serde
    → length bytes ≡ 1
    → All (λ b. b < 2 ^ 8) bytes
    → one_of (serde.u8_from_slice (serde.to_vec (number (big_endian 0 bytes)))) ≡ some bytes
one_of-number serde [] f h all = absurd (omega arith)
one_of-number serde (byte ∷ []) f h (b, all) =
    ap (λ n. one_of (serde.u8_from_slice (serde.to_vec (number n)))) (omega arith)
    ∙ ap one_of (f.of_u8 byte b)
one_of-number serde (byte ∷ next ∷ bytes) f h all = absurd (omega arith)

two_bytes_back :
    (high low n : ℕ)
    → high < 2 ^ 8
    → low < 2 ^ 8
    → n ≡ (0 * 256 + high) * 256 + low
    → to_be_bytes n ≡ high ∷ low ∷ []
two_bytes_back high low n h k e =
    let hs : n / 256 ≡ high = omega arith in
    let ls : n % 256 ≡ low = omega arith in rw (hs, ls) refl

two_of-number :
    (serde : Serde) (bytes : Bytes)
    → IsFaithful serde
    → length bytes ≡ 2
    → All (λ b. b < 2 ^ 8) bytes
    → two_of (serde.u16_from_slice (serde.to_vec (number (big_endian 0 bytes)))) ≡ some bytes
two_of-number serde [] f h all = absurd (omega arith)
two_of-number serde (high ∷ []) f h all = absurd (omega arith)
two_of-number serde (high ∷ low ∷ []) f h (p, (q, all)) =
    ap two_of (f.of_u16 ((0 * 256 + high) * 256 + low) (omega arith))
    ∙ ap some (two_bytes_back high low _ p q refl)
two_of-number serde (high ∷ low ∷ next ∷ bytes) f h all = absurd (omega arith)

-- The bytes of a view are bytes.
abbrev pub IsBytes : View → Type 0
IsBytes view = (r : Range) → All (λ b. b < 2 ^ 8) (view.region r)

-- What is read of a published state are the bytes that it is of.
parse_command-state :
    (serde : Serde) (view : View) (type : CommandStatusType)
    → IsFaithful serde
    → IsSized view
    → IsBytes view
    → parse_command serde type (serde.to_vec (value_of view (state_of type)))
      ≡ some (view.region (range_from (address type) (size type)))
unfolding parse_command value_of
parse_command-state serde view (u8_command addr) f h b =
    one_of-number serde _ f (h (range_from addr 1) ∙ omega arith) (b (range_from addr 1))
parse_command-state serde view (u16_command addr) f h b =
    two_of-number serde _ f (h (range_from addr 2) ∙ omega arith) (b (range_from addr 2))
parse_command-state serde view (array_command addr len) f h b =
    f.of_bytes _ (b (range_from addr len))

wrapped_inside :
    (checks : Bool) (addr len : ℕ)
    → addr + len < 2 ^ 16
    → wrapped checks addr len ≡ returns (range_from addr len)
wrapped_inside checks addr len h =
    let inside : leb (2 ^ 16) (addr + len) ≡ false = ground arith in
    let end : (addr + len) % 2 ^ 16 ≡ addr + len = omega arith in
    elim (Bool-cases checks) [ inl on ↦ rw (on, inside, end) refl | inr off ↦ rw (off, end) refl ]

range_inside :
    (checks : Bool) (type : CommandStatusType)
    → address type + size type < 2 ^ 16
    → command_range checks type ≡ returns (range_from (address type) (size type))
range_inside checks (u8_command addr) h = wrapped_inside checks addr 1 h
range_inside checks (u16_command addr) h = wrapped_inside checks addr 2 h
range_inside checks (array_command addr len) h = wrapped_inside checks addr len h

sized_lem :
    (config log pack addr len : ℕ) (bytes : Bytes)
    → length bytes ≡ len
    → sized_status config log pack (range_from addr len) (some bytes)
      ≡ some (set_status_command config log pack addr bytes)
sized_lem config log pack addr len bytes h =
    let same : addr + len - addr ≡ length bytes = omega arith in rw (==_eq _ _ same) refl

-- In a build with or without overflow checks: if serde_json reads numbers and arrays of bytes
-- back as they were written, and the receivers hold as many bytes as their ranges have, the
-- published state of an address, sent back to the command for it and not as a duplicate, sends
-- the spa a set status with the same bytes at the same address, without a panic, if they end
-- before 2 ^ 16.
pub on_broadcast-state :
    (checks : Bool) (serde : Serde) (view : View) (config log pack : ℕ) (type : CommandStatusType)
    (p : Publish)
    → IsFaithful serde
    → IsSized view
    → IsBytes view
    → address type + size type < 2 ^ 16
    → p.dup ≡ false
    → p.payload ≡ serde.to_vec (value_of view (state_of type))
    → on_broadcast checks serde (set_status config log pack type) p.topic_name (publish_packet p)
      ≡ returns (
          some (
            set_status_command config log pack
              (address type)
              (view.region (range_from (address type) (size type)))))
unfolding on_broadcast command_of
on_broadcast-state checks serde view config log pack type p f h b k first e =
    let read = parse_command-state serde view type f h b in
    let computed = range_inside checks type k in
    rw (first, beq_refl p.topic_name, e, read, computed)
      (ap returns (
        sized_lem config log pack (address type) (size type) _
          (h (range_from (address type) (size type)) ∙ omega arith)))
