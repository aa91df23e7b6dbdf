-- ===== src/Outcome.antt =====
-- Calls that may panic: `unreachable!`, `expect`, and slices out of range.
use intouch2_mqtt.Base.{
  ◌≡◌, refl, ◌⊎◌, inl, inr, if◌then◌else◌, Bool, true, false, Option, none, some,
}

pub data Outcome {ℓ} (A : Type ℓ) : Type ℓ where
  returns : A → Outcome A
  panics : Outcome A

infixl 5 ◌>>=◌
abbrev pub ◌>>=◌ {ℓ κ} : {A : Type ℓ} {B : Type κ} → Outcome A → (A → Outcome B) → Outcome B
returns a >>= f = f a
panics >>= f = panics

-- `let Some(x) = … else { unreachable!() }`, and `expect`.
abbrev pub expect {ℓ} : {A : Type ℓ} → Option A → Outcome A
expect (some a) = returns a
expect none = panics

-- Where a chain returns, its first step does.
pub bind-returns {ℓ κ} :
    {A : Type ℓ} {B : Type κ} (o : Outcome A) (f : A → Outcome B) (b : B)
    → (o >>= f) ≡ returns b
    → (a : A) × (o ≡ returns a) × (f a ≡ returns b)
bind-returns (returns a) f b h = (a, refl, h)
bind-returns panics f b h = cc

pub if-returns {ℓ} :
    {A : Type ℓ} (b : Bool) (o o' : Outcome A) (a : A)
    → (if b then o else o') ≡ returns a
    → (o ≡ returns a) ⊎ (o' ≡ returns a)
if-returns true o o' a h = inl h
if-returns false o o' a h = inr h

pub eq_of_returns {ℓ} : {A : Type ℓ} {a b : A} → returns a ≡ returns b → a ≡ b
eq_of_returns h = cc

pub if-returns_cases {ℓ} :
    {A : Type ℓ} (b : Bool) (o o' : Outcome A) (a : A)
    → (if b then o else o') ≡ returns a
    → ((b ≡ true) × (o ≡ returns a)) ⊎ ((b ≡ false) × (o' ≡ returns a))
if-returns_cases true o o' a h = inl (refl, h)
if-returns_cases false o o' a h = inr (refl, h)

-- Where two steps and what is made of them return, both do.
pub both-returns {ℓ κ ι} :
    {A : Type ℓ} {B : Type κ} {C : Type ι} (o : Outcome A) (o' : Outcome B) (f : A → B → C) (c : C)
    → (o >>= λ a. o' >>= λ b. returns (f a b)) ≡ returns c
    → (a : A) × (b : B) × (o ≡ returns a) × (o' ≡ returns b) × (f a b ≡ c)
both-returns (returns a) (returns b) f c h = (a, b, refl, refl, eq_of_returns h)
both-returns (returns a) panics f c h = cc
both-returns panics o' f c h = cc
