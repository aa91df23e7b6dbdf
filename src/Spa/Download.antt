-- ===== src/Spa/Download.antt =====
-- The download of the spa's whole memory, in `SpaConnection::init` of intouch2-mqtt/src/spa.rs.
pub mod Others
pub mod Answers
use intouch2_mqtt.Base.{
  ℕ, ◌+◌, ◌≤◌, ◌<◌, ◌≡◌, ◌≢◌, refl, ap, sym, subst, ◌∙◌, Option, some, List, [], ◌∷◌, ◌++◌, Bytes,
  arith, ◌==◌, ==_eq, ==_ne, if◌then◌else◌, length, take, drop, length-append, take-append,
  append_assoc,
}
use intouch2_mqtt.Outcome.{Outcome, returns, ◌>>=◌}
use intouch2_mqtt.Object.{
  Kind, Payload, format_of, ping, pong, get_version, packs, radio_error, water_quality_error,
  version, push_status, set_status, key_press, push_status_ack, request_status, status,
  get_watercare, watercare_get, set_watercare, watercare_set, request_watercare, modify_watercare,
  delete_watercare, watercare_deleted, add_watercare, watercare_added, modify_watercare_response,
  request_reminders, reminders_request, malformed_reminders_request, watercare_request,
  channel_current, get_channel, files_request, files, unknown,
}
use intouch2_mqtt.Framing.{NetworkPackage, addressed, hello}
use intouch2_mqtt.Gecko.{Range, GeckoDatas, splice, write, len}
use intouch2_mqtt.Gecko.Overlay.{overlay, length-overlay, take-splice}
use intouch2_mqtt.Gecko.Slices.{write_within, write-returns, length-splice}

-- What `timeout_at(rx.recv())` gives; and between its turns, while the job holds no lock, another job
-- that held it and left the memory as it says.
pub data Event : Type 0 where
  message : NetworkPackage → Event
  changed : GeckoDatas → Event
  timed_out closed : Event

-- Where the inner loop is: `expected` and `data_read`, at its end, or at an invalid length.
pub data Progress : Type 0 where
  reading : ℕ → ℕ → Progress
  complete invalid_data : Progress

-- A `Status` with the expected number.
abbrev pub on_status : ℕ → ℕ → GeckoDatas → ℕ → ℕ → Bytes → Outcome (Progress × GeckoDatas)
on_status gecko_len data_read g next len bytes =
    if len == length bytes
    then (write (record { start = data_read; end = data_read + length bytes }) bytes g >>= λ g'.
        returns (
          if data_read + length bytes == gecko_len
              then complete
              else reading next (data_read + length bytes),
          g',
        ))
    else returns (invalid_data, g)

unfoldable pub on_message :
    ℕ → ℕ → ℕ → GeckoDatas → NetworkPackage → Outcome (Progress × GeckoDatas)
on_message gecko_len expected data_read g
      (addressed _ _ (status, (seq, (next, (len, (bytes, _)))))) =
    if seq == expected
    then on_status gecko_len data_read g next len bytes
    else returns (reading expected data_read, g)
on_message gecko_len expected data_read g _ = returns (reading expected data_read, g)

-- What the loop over `'retry` gives: the number of requests sent, the memory and the events that are
-- left, an error, or a wait for more.
pub data Download : Type 0 where
  downloaded : ℕ → GeckoDatas → List Event → Download
  failed waiting : ℕ → GeckoDatas → Download

-- The loops from a turn of the inner one on; `requests` counts the `RequestStatus` sent.
unfoldable pub download : ℕ → ℕ → ℕ → ℕ → GeckoDatas → List Event → Outcome Download
download gecko_len requests expected data_read g [] = returns (waiting requests g)
download gecko_len requests expected data_read g (closed ∷ events) = returns (failed requests g)
download gecko_len requests expected data_read g (changed g' ∷ events) =
    download gecko_len requests expected data_read g' events
download gecko_len requests expected data_read g (timed_out ∷ events) =
    download gecko_len (requests + 1) 0 0 g events
download gecko_len requests expected data_read g (message p ∷ events) =
    on_message gecko_len expected data_read g p >>= λ r. elim r.0 [
      | complete ↦ returns (downloaded requests r.1 events)
      | invalid_data ↦ returns (failed requests r.1)
      | reading expected' data_read' ↦ download gecko_len requests expected' data_read' r.1 events
    ]

-- What the job sends for each attempt.
abbrev pub status_request : Bytes → Bytes → ℕ → ℕ → NetworkPackage
status_request src dst seq gecko_len =
    addressed (some src) (some dst) (request_status, (seq, (0, (gecko_len, tt))))

abbrev pub status_message : Option Bytes → Option Bytes → ℕ → ℕ → Bytes → NetworkPackage
status_message src dst seq next bytes =
    addressed src dst (status, (seq, (next, (length bytes, (bytes, tt)))))
