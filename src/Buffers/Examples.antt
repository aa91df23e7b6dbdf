-- ===== src/Buffers/Examples.antt =====
-- Runs of the pool of buffers.
use intouch2_mqtt.Base.{ℕ, ◌≡◌, ◌≤◌, refl, arith, [], ◌∷◌, length, none, some}
use intouch2_mqtt.Outcome.{returns}
use intouch2_mqtt.ForwardMap.{update}
use intouch2_mqtt.Buffers.{Buffers, take_or, release}
use intouch2_mqtt.Buffers.Stack.{
  Represents, pop_or, push_below, take_or-Represents, release-Represents,
}

-- A pool with one buffer, of the number 5.
abbrev one : Buffers ℕ
one = record { bufs = update (λ i. none) 0 (some 5); size = 1 }

take_or-Represents_example :
    (b' : Buffers ℕ) × (take_or 9 one ≡ returns ((pop_or 9 (5 ∷ [])).0, b'))
    × Represents b' (pop_or 9 (5 ∷ [])).1
take_or-Represents_example = take_or-Represents 9 one (5 ∷ []) (refl, (refl, tt))

release-Represents_example :
    (b' : Buffers ℕ) × (release 2 7 one ≡ returns b')
    × Represents b' (push_below 2 7 (5 ∷ []))
    × (length (push_below {T = ℕ} 2 7 (5 ∷ [])) ≤ 2)
release-Represents_example = release-Represents 2 7 one (5 ∷ []) (refl, (refl, tt)) (omega arith)
