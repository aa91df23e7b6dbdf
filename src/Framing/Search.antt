-- ===== src/Framing/Search.antt =====
-- Looking for a closing mark: a mark begins with `<` and has no other `<`, so that it can only be
-- found inside the content or right behind it.
use intouch2_mqtt.Base.{
  ℕ, ◌≡◌, refl, ◌∙◌, Bool, true, ◌&&◌, not, Option, none, some, [], ◌∷◌, ◌++◌, append-nil, arith,
  Bytes, ◌==◌,
}
use intouch2_mqtt.Object.RoundTrip.{strip-append}
use intouch2_mqtt.Nom.{strip, split_first, cut_here, push_before}

abbrev pub angle : ℕ
angle = b'<'

abbrev pub no_angle : Bytes → Bool
no_angle [] = true
no_angle (x ∷ t) = not (x == angle) && no_angle t

abbrev pub push_all : Bytes → Option (Bytes × Bytes) → Option (Bytes × Bytes)
push_all [] o = o
push_all (x ∷ c) o = push_before x (push_all c o)

pub push_all-none : (c : Bytes) → push_all c none ≡ none
push_all-none [] = refl
push_all-none (x ∷ c) = rw (push_all-none c)

pub push_all-some :
    (c before from : Bytes) → push_all c (some (before, from)) ≡ some (c ++ before, from)
push_all-some [] before from = refl
push_all-some (x ∷ c) before from = rw (push_all-some c before from)

-- Whether a mark's tail is a prefix is settled within the content.
strip-angle :
    (p c r : Bytes) → no_angle p ≡ true → strip p c ≡ none → strip p (c ++ angle ∷ r) ≡ none
strip-angle [] c r a h = cc
strip-angle (x ∷ p) [] r a h = ground arith
strip-angle (x ∷ p) (y ∷ c) r a h = ground (arith, strip-angle p c r)

cut_here-none :
    (o : Option Bytes) (i : Bytes) (later : Option (Bytes × Bytes))
    → cut_here o i later ≡ none
    → (o ≡ none) × (later ≡ none)
cut_here-none none i later h = (refl, h)
cut_here-none (some r) i later h = cc

push_before-none : (y : ℕ) (o : Option (Bytes × Bytes)) → push_before y o ≡ none → o ≡ none
push_before-none y none h = refl
push_before-none y (some (b, f)) h = cc

strip-angle_cons :
    (p c r : Bytes) (y : ℕ)
    → no_angle p ≡ true
    → strip (angle ∷ p) (y ∷ c) ≡ none
    → strip (angle ∷ p) (y ∷ (c ++ angle ∷ r)) ≡ none
strip-angle_cons p c r y a h = ground (arith, strip-angle p c r a)

-- A mark that is not in the content is found as if the content were not there.
pub split_first-angle :
    (p c r : Bytes)
    → no_angle p ≡ true
    → split_first (angle ∷ p) c ≡ none
    → split_first (angle ∷ p) (c ++ angle ∷ r) ≡ push_all c (split_first (angle ∷ p) (angle ∷ r))
split_first-angle p [] r a h = refl
split_first-angle p (y ∷ c) r a h =
    let (miss, later) = cut_here-none (strip (angle ∷ p) (y ∷ c)) (y ∷ c) _ h in
    let absent : split_first (angle ∷ p) c ≡ none = push_before-none y _ later in
    rw (strip-angle_cons p c r y a miss) (rw (split_first-angle p c r a absent))

-- A mark that is not in the content is found right behind it.
pub split_first-close :
    (p c r : Bytes)
    → no_angle p ≡ true
    → split_first (angle ∷ p) c ≡ none
    → split_first (angle ∷ p) (c ++ angle ∷ (p ++ r)) ≡ some (c, angle ∷ (p ++ r))
split_first-close p c r a h =
    split_first-angle p c (p ++ r) a h
    ∙ rw (strip-append p r) (push_all-some c [] (angle ∷ (p ++ r)) ∙ rw append-nil)
