-- ===== src/Spa/Commands.antt =====
-- The commander of `SpaConnection::init` of intouch2-mqtt/src/spa.rs.
use intouch2_mqtt.Base.{
  ◌+◌, ◌^◌, ◌≡◌, refl, Option, none, some, Bytes, All, ltb, length, inl, inr, Bool-cases,
}
use intouch2_mqtt.Framing.{NetworkPackage, addressed, hello}
use intouch2_mqtt.Spa.{
  SpaConnection, SpaCommand, set_status_command, set_watercare_command, on_command, command_job,
}

abbrev pub source : NetworkPackage → Option Bytes
source (addressed src dst d) = src
source (hello x) = none

abbrev pub destination : NetworkPackage → Option Bytes
destination (addressed src dst d) = dst
destination (hello x) = none

-- Every package that the commander sends is addressed from the client's own id to the client's
-- own id, for every command.
pub command_job-destination :
    (spa : SpaConnection) (c : SpaCommand)
    → All (λ p. (source p ≡ some spa.src) × (destination p ≡ some spa.src)) (command_job spa c).0
unfolding on_command
command_job-destination spa (set_watercare_command mode) = ((refl, refl), tt)
command_job-destination spa (set_status_command config log pack pos bytes) =
    elim (Bool-cases (ltb (length bytes + 5) (2 ^ 8))) [
      | inl p ↦ rw p ((refl, refl), tt)
      | inr p ↦ rw p tt
    ]
