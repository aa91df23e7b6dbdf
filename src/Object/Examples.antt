-- ===== src/Object/Examples.antt =====
-- Packages read and written, with the reference combinators.
use intouch2_mqtt.Base.{◌≡◌, refl, inl, arith, [], ◌∷◌, ◌++◌, codes, length, false}
use intouch2_mqtt.Nom.{ok, failure}
use intouch2_mqtt.Nom.Reference.{reference}
use intouch2_mqtt.Object.{Kind, NetworkPackageData, ReminderInfo, ReminderIndex}
use intouch2_mqtt.Object.Codec.{compose, parse, compose_list, compose_reminder, parse_order}
use intouch2_mqtt.Object.Dispatch.{first_match, parse-first_match, parse-compose}
use intouch2_mqtt.Object.Totality.{Concludes, parse-Concludes}
use intouch2_mqtt.Object.Defects.{parse-invalid_watercare_type, parse-reminders}

-- A pushed status with two changes.
abbrev two_changes : NetworkPackageData
two_changes = (
  Kind.push_status,
  (
    2,
    (
      record { change = 259; bytes = 9 ∷ 8 ∷ [] } ∷ record { change = 7; bytes = 0 ∷ 1 ∷ [] } ∷ [],
      tt,
    ),
  ),
)

parse-compose_example : parse reference (compose two_changes) ≡ ok ([], two_changes)
parse-compose_example = parse-compose reference two_changes (refl, (tt, ((refl, (refl, tt)), tt)))

parse-first_match_example :
    parse reference (codes "APING") ≡ first_match reference parse_order (codes "APING")
parse-first_match_example = parse-first_match reference (codes "APING")

parse-Concludes_example : Concludes (length (codes "WCGET?")) (parse reference (codes "WCGET?"))
parse-Concludes_example = parse-Concludes reference (codes "WCGET?")

parse-invalid_watercare_type_example : parse reference (codes "WCDEL" ++ 0 ∷ 3 ∷ 5 ∷ []) ≡ failure
parse-invalid_watercare_type_example =
    parse-invalid_watercare_type reference 0 3 (5 ∷ []) (λ h. absurd (omega arith))
      (λ h. absurd (omega arith))

abbrev clean_filter_soon : ReminderInfo
clean_filter_soon = record { index = ReminderIndex.clean_filter; info = 30; valid = false }

parse-reminders_example :
    parse reference (compose (Kind.reminders_request, (clean_filter_soon ∷ [], tt)))
    ≡ ok (
      [],
      (
        Kind.malformed_reminders_request,
        (compose_list compose_reminder (clean_filter_soon ∷ []), tt),
      ),
    )
parse-reminders_example = parse-reminders reference clean_filter_soon [] (inl refl)
