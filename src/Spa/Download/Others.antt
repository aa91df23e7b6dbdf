-- ===== src/Spa/Download/Others.antt =====
-- The messages that the download of intouch2-mqtt/src/spa.rs passes over.
use intouch2_mqtt.Base.{ℕ, ◌≡◌, ◌≢◌, refl, Option, Bytes, ==_ne}
use intouch2_mqtt.Outcome.{returns}
use intouch2_mqtt.Object.{
  Kind, Payload, format_of, ping, pong, get_version, packs, radio_error, water_quality_error,
  version, push_status, set_status, key_press, push_status_ack, request_status, status,
  get_watercare, watercare_get, set_watercare, watercare_set, request_watercare, modify_watercare,
  delete_watercare, watercare_deleted, add_watercare, watercare_added, modify_watercare_response,
  request_reminders, reminders_request, malformed_reminders_request, watercare_request,
  channel_current, get_channel, files_request, files, unknown,
}
use intouch2_mqtt.Framing.{NetworkPackage, addressed, hello}
use intouch2_mqtt.Gecko.{GeckoDatas}
use intouch2_mqtt.Spa.Download.{reading, on_message, status_message}

-- A message that is not the next part: a greeting, a package that is no `Status`, or a `Status` with
-- another number.
pub data IsOther (expected : ℕ) : NetworkPackage → Type 0 where
  greeting : (id : Bytes) → IsOther expected (hello id)
  other_kind :
      (src dst : Option Bytes) (kind : Kind) (content : Payload (format_of kind))
      → kind ≢ status
      → IsOther expected (addressed src dst (kind, content))
  other_part :
      (src dst : Option Bytes) (seq next : ℕ) (bytes : Bytes)
      → seq ≢ expected
      → IsOther expected (status_message src dst seq next bytes)

on_message-other_kind :
    (expected : ℕ) (kind : Kind) (content : Payload (format_of kind))
    → kind ≢ status
    → (gecko_len data_read : ℕ) (g : GeckoDatas) (src dst : Option Bytes)
    → on_message gecko_len expected data_read g (addressed src dst (kind, content))
      ≡ returns (reading expected data_read, g)
unfolding on_message
on_message-other_kind expected ping content n gecko_len data_read g src dst = refl
on_message-other_kind expected pong content n gecko_len data_read g src dst = refl
on_message-other_kind expected get_version content n gecko_len data_read g src dst = refl
on_message-other_kind expected packs content n gecko_len data_read g src dst = refl
on_message-other_kind expected radio_error content n gecko_len data_read g src dst = refl
on_message-other_kind expected water_quality_error content n gecko_len data_read g src dst = refl
on_message-other_kind expected version content n gecko_len data_read g src dst = refl
on_message-other_kind expected push_status content n gecko_len data_read g src dst = refl
on_message-other_kind expected set_status content n gecko_len data_read g src dst = refl
on_message-other_kind expected key_press content n gecko_len data_read g src dst = refl
on_message-other_kind expected push_status_ack content n gecko_len data_read g src dst = refl
on_message-other_kind expected request_status content n gecko_len data_read g src dst = refl
on_message-other_kind expected status content n gecko_len data_read g src dst = absurd (n refl)
on_message-other_kind expected get_watercare content n gecko_len data_read g src dst = refl
on_message-other_kind expected watercare_get content n gecko_len data_read g src dst = refl
on_message-other_kind expected set_watercare content n gecko_len data_read g src dst = refl
on_message-other_kind expected watercare_set content n gecko_len data_read g src dst = refl
on_message-other_kind expected request_watercare content n gecko_len data_read g src dst = refl
on_message-other_kind expected modify_watercare content n gecko_len data_read g src dst = refl
on_message-other_kind expected delete_watercare content n gecko_len data_read g src dst = refl
on_message-other_kind expected watercare_deleted content n gecko_len data_read g src dst = refl
on_message-other_kind expected add_watercare content n gecko_len data_read g src dst = refl
on_message-other_kind expected watercare_added content n gecko_len data_read g src dst = refl
on_message-other_kind expected modify_watercare_response content n gecko_len data_read g src dst =
    refl
on_message-other_kind expected request_reminders content n gecko_len data_read g src dst = refl
on_message-other_kind expected reminders_request content n gecko_len data_read g src dst = refl
on_message-other_kind expected malformed_reminders_request content n gecko_len data_read g src dst =
    refl
on_message-other_kind expected watercare_request content n gecko_len data_read g src dst = refl
on_message-other_kind expected channel_current content n gecko_len data_read g src dst = refl
on_message-other_kind expected get_channel content n gecko_len data_read g src dst = refl
on_message-other_kind expected files_request content n gecko_len data_read g src dst = refl
on_message-other_kind expected files content n gecko_len data_read g src dst = refl
on_message-other_kind expected unknown content n gecko_len data_read g src dst = refl

pub on_message-IsOther :
    (expected : ℕ) (p : NetworkPackage)
    → IsOther expected p
    → (gecko_len data_read : ℕ) (g : GeckoDatas)
    → on_message gecko_len expected data_read g p ≡ returns (reading expected data_read, g)
unfolding on_message
on_message-IsOther expected _ (greeting id) gecko_len data_read g = refl
on_message-IsOther expected _ (other_kind src dst kind content n) gecko_len data_read g =
    on_message-other_kind expected kind content n gecko_len data_read g src dst
on_message-IsOther expected _ (other_part src dst seq next bytes n) gecko_len data_read g =
    rw (==_ne seq expected n) refl
