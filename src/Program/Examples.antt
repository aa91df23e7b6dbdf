-- ===== src/Program/Examples.antt =====
-- Runs of the program's jobs.
use intouch2_mqtt.Base.{
  ◌++◌, ℕ, ◌≡◌, refl, arith, List, [], ◌∷◌, Bytes, get_elem?, All, beq, beq_refl, Bool, true,
}
use intouch2_mqtt.Outcome.{returns}
use intouch2_mqtt.Object.{Kind, NetworkPackageData}
use intouch2_mqtt.Object.Codec.{compose}
use intouch2_mqtt.Program.{changes, dump, Sending, sent, not_sent}
use intouch2_mqtt.Program.Changes.{heard, last_state, changes-heard}
use intouch2_mqtt.Program.Dumped.{IsFailure, IsSpaced, IsHandled, dump-IsSpaced}

-- Two states behind the first one.
abbrev states : List Bytes
states = (1 ∷ 5 ∷ 3 ∷ []) ∷ (1 ∷ 5 ∷ 4 ∷ []) ∷ []

changes-heard_example :
    (changed : List (ℕ × ℕ)) × (changes 3 (1 ∷ 2 ∷ 3 ∷ []) states ≡ returns changed)
    × ((j : ℕ)
        → heard changed (get_elem? (1 ∷ 2 ∷ 3 ∷ [])) j
          ≡ get_elem? (last_state (1 ∷ 2 ∷ 3 ∷ []) states) j)
changes-heard_example = changes-heard 3 (1 ∷ 2 ∷ 3 ∷ []) states refl (refl, (refl, tt))

-- Packages are the same where their bytes are.
abbrev same_bytes : NetworkPackageData → NetworkPackageData → Bool
same_bytes x y = beq (compose x) (compose y)

same_bytes_refl : (x : NetworkPackageData) → same_bytes x x ≡ true
same_bytes_refl x = beq_refl (compose x)

-- The last package cannot be sent.
abbrev packages : List (NetworkPackageData × Sending)
packages =
    ((Kind.get_version, (1, tt)), sent)
    ∷ ((Kind.ping, tt), sent)
    ∷ ((Kind.get_version, (1, tt)), sent)
    ∷ ((Kind.get_watercare, (0, tt)), not_sent)
    ∷ []

dump-IsSpaced_example :
    (taken : List (NetworkPackageData × Sending)) × (packages
      ≡ taken ++ (dump same_bytes 10 ([], []) packages).left)
    × IsFailure same_bytes same_bytes_refl (dump same_bytes 10 ([], []) packages).left
    × IsSpaced same_bytes same_bytes_refl 10 (dump same_bytes 10 ([], []) packages).published
    × All
        (λ (e : NetworkPackageData × Sending).
          IsHandled same_bytes same_bytes_refl (dump same_bytes 10 ([], []) packages).published e.0)
        taken
dump-IsSpaced_example = dump-IsSpaced same_bytes same_bytes_refl 10 packages (omega arith)
