-- ===== src/PortForward/Hello.antt =====
-- The name of the spa: `SpaHello::try_from` and the retries of `PortForwardBuilder::build`.
use intouch2_mqtt.Base.{
  ℕ, suc, ◌+◌, ◌-◌, ◌≤◌, ◌≡◌, refl, ap, subst, ◌∙◌, Bool, true, false, Option, none, some, List, [],
  ◌∷◌, Bytes, arith, leb, ◌==◌, if◌then◌else◌, length, take, drop, ==_iff, ◌⊎◌, Bool-cases, inl,
  inr,
}
use intouch2_mqtt.Outcome.{Outcome, returns, panics, bind-returns, if-returns_cases, eq_of_returns}
use intouch2_mqtt.Nom.{Nom}
use intouch2_mqtt.Framing.{parse_network_data}
use intouch2_mqtt.Spa.{position, split_name}
use intouch2_mqtt.Spa.Connect.{split_name-bar, split_name-panics}
use intouch2_mqtt.PortForward.{
  spa_hello_of, before_bar, Probe, ProbeEvent, datagram, timed_out, found, spa_timeout, waiting,
  probe, probe_answer, find_spa,
}

-- A missing bar as a panic.
abbrev pub or_panic : Option (Bytes × Bytes) → Outcome (Bytes × Bytes)
or_panic none = panics
or_panic (some r) = returns r

abbrev pub behind : ℕ → Outcome (Bytes × Bytes) → Outcome (Bytes × Bytes)
behind x panics = panics
behind x (returns (id, name)) = returns (x ∷ id, name)

or_panic-before_bar :
    (x : ℕ) (o : Option (Bytes × Bytes)) → or_panic (before_bar x o) ≡ behind x (or_panic o)
or_panic-before_bar x none = refl
or_panic-before_bar x (some r) = refl

behind-if :
    (x : ℕ) (b : Bool) (id name : Bytes)
    → behind x (if b then returns (id, name) else panics)
      ≡ (if b then returns (x ∷ id, name) else panics)
behind-if x true id name = refl
behind-if x false id name = refl

split_name-step :
    (x : ℕ) (xs : Bytes) → (x == 124) ≡ false → split_name (x ∷ xs) ≡ behind x (split_name xs)
unfolding split_name
split_name-step x xs h =
    let e : suc (position xs) + 1 ≡ suc (position xs + 1) = omega arith in
    let f : leb (suc (position xs + 1)) (suc (length xs)) ≡ leb (position xs + 1) (length xs) =
      ground arith in
    rw
      (
        h,
        behind-if x (leb (position xs + 1) (length xs)) (take (position xs) xs)
            (drop (position xs + 1) xs),
        e,
        f,
      )
      refl

-- The client and the forwarder split the spa's name at the same bar; where there is no bar, the
-- forwarder reports an error and the client panics.
pub split_name-spa_hello_of : (buf : Bytes) → split_name buf ≡ or_panic (spa_hello_of buf)
unfolding spa_hello_of
split_name-spa_hello_of [] = split_name-panics [] tt
split_name-spa_hello_of (x ∷ buf) = elim (Bool-cases (x == 124)) [
  | inl p ↦ let e = (==_iff x 124).0 p in rw e (split_name-bar [] buf tt)
  | inr p ↦
      rw (p, or_panic-before_bar x (spa_hello_of buf))
        (split_name-step x buf p ∙ ap (behind x) (split_name-spa_hello_of buf))
]

-- What a count of hellos may be at each end of the loop.
abbrev pub IsWithin : ℕ → Probe → Type 0
IsWithin most (found name sent) = sent ≤ most
IsWithin most (spa_timeout sent) = sent ≡ most
IsWithin most (waiting sent) = sent ≤ most

after_answer :
    (answer : Option Bytes) (again : Outcome Probe) (sent : ℕ) (r : Probe)
    → (elim answer as (λ x. Outcome Probe) [ some name ↦ returns (found name sent) | none ↦ again ])
      ≡ returns r
    → (again ≡ returns r) ⊎ ((name : Bytes) × (found name sent ≡ r))
after_answer none again sent r h = inl h
after_answer (some name) again sent r h = inr (name, eq_of_returns h)

probe-IsWithin :
    (n : Nom) (tries sent : ℕ) (events : List ProbeEvent) (r : Probe)
    → probe n tries sent events ≡ returns r
    → IsWithin (tries + sent) r
unfolding probe
probe-IsWithin n tries sent [] r h = subst (IsWithin (tries + sent)) (eq_of_returns h) (omega arith)
probe-IsWithin n tries sent (timed_out ∷ events) r h =
    elim (if-returns_cases (tries == 0) _ _ r h) [
      | inl (none_left, e) ↦
          subst (IsWithin (tries + sent)) (eq_of_returns e)
            (let z = (==_iff tries 0).0 none_left in omega arith)
      | inr (some_left, e) ↦
          let m : tries - 1 + (sent + 1) ≡ tries + sent = ground arith in
          subst (λ k. IsWithin k r) m (probe-IsWithin n (tries - 1) (sent + 1) events r e)
    ]
probe-IsWithin n tries sent (datagram bytes ∷ events) r h =
    let (answer, _, rest) = bind-returns (probe_answer (parse_network_data n bytes)) _ r h in
    elim (after_answer answer (probe n tries sent events) sent r rest) [
      | inl again ↦ probe-IsWithin n tries sent events r again
      | inr (name, e) ↦ subst (IsWithin (tries + sent)) e (omega arith)
    ]

-- When the search for the spa's name returns, it has sent at most five greetings, and exactly
-- five when it gives up.
pub find_spa-IsWithin :
    (n : Nom) (events : List ProbeEvent) (r : Probe) → find_spa n events ≡ returns r → IsWithin 5 r
find_spa-IsWithin n events r h = probe-IsWithin n 4 1 events r h
