-- ===== src/Nom.antt =====
-- The parser combinators of the crate nom (version 7), which intouch2/src/parser.rs and the macro
-- of intouch2/src/object_macro.rs call. The crate is not part of the repository: it is a record of
-- operations with the documented behaviour of each as a law. `Nom.Reference` has an instance.
pub mod Reference
use intouch2_mqtt.Base.{
  ℕ, suc, ◌+◌, ◌*◌, ◌≡◌, Bool, true, false, Option, none, some, List, [], ◌∷◌, ◌++◌, ◌==◌, Bytes,
  if◌then◌else◌,
}

-- `nom::IResult`, without the position and kind that an error carries for display. `panic` is an
-- unwinding call, and `out_of_fuel` has no counterpart in the program.
pub data IResult {ℓ} (A : Type ℓ) : Type ℓ where
  ok : A → IResult A
  error failure panic out_of_fuel : IResult A
  incomplete : ℕ → IResult A

-- The operator `?`.
infixl 5 ◌>>=◌
abbrev pub ◌>>=◌ {ℓ κ} : {A : Type ℓ} {B : Type κ} → IResult A → (A → IResult B) → IResult B
ok a >>= f = f a
error >>= f = error
failure >>= f = failure
panic >>= f = panic
out_of_fuel >>= f = out_of_fuel
incomplete n >>= f = incomplete n

-- What is left of the input, and the value.
abbrev pub Parser {ℓ} : Type ℓ → Type ℓ
Parser A = Bytes → IResult (Bytes × A)

-- A recoverable error hands the input to an alternative; any other outcome is final.
abbrev pub or_else {ℓ} : {A : Type ℓ} → IResult A → IResult A → IResult A
or_else error r = r
or_else (ok a) r = ok a
or_else failure r = failure
or_else panic r = panic
or_else out_of_fuel r = out_of_fuel
or_else (incomplete n) r = incomplete n

-- An optional parser consumes nothing where its parser gives a recoverable error.
abbrev pub optional {ℓ} : {A : Type ℓ} → Bytes → IResult (Bytes × A) → IResult (Bytes × Option A)
optional i r = or_else (r >>= λ (rest, a). ok (rest, some a)) (ok (i, none))

-- `strip t i` is what follows the prefix `t` of `i`.
abbrev pub strip : Bytes → Bytes → Option Bytes
strip [] i = some i
strip (x ∷ t) [] = none
strip (x ∷ t) (y ∷ i) = if x == y then strip t i else none

-- The first character goes to the part before the cut.
abbrev pub push_before : ℕ → Option (Bytes × Bytes) → Option (Bytes × Bytes)
push_before x none = none
push_before x (some (before, from)) = some (x ∷ before, from)

abbrev pub cut_here : Option Bytes → Bytes → Option (Bytes × Bytes) → Option (Bytes × Bytes)
cut_here (some _) i later = some ([], i)
cut_here none i later = later

-- `split_first t i` cuts `i` in front of the first occurrence of `t`.
abbrev pub split_first : Bytes → Bytes → Option (Bytes × Bytes)
split_first t [] = cut_here (strip t []) [] none
split_first t (x ∷ i) = cut_here (strip t (x ∷ i)) (x ∷ i) (push_before x (split_first t i))

abbrev pub tagged : Bytes → Option Bytes → IResult (Bytes × Bytes)
tagged t none = error
tagged t (some rest) = ok (rest, t)

abbrev pub until : Option (Bytes × Bytes) → IResult (Bytes × Bytes)
until none = error
until (some (before, from)) = ok (from, before)

pub record Nom : Type 1 where
  pub tag : Bytes → Parser Bytes
  pub take_until : Bytes → Parser Bytes
  pub u8 : Parser ℕ
  pub be_u16 : Parser ℕ
  pub opt : {A : Type 0} → Parser A → Parser (Option A)
  pub and : {A B : Type 0} → Parser A → Parser B → Parser (A × B)
  pub and_then : {A : Type 0} → Parser Bytes → Parser A → Parser A
  pub or : {A : Type 0} → Parser A → Parser A → Parser A
  pub alt : {A : Type 0} → List (Parser A) → Parser A
  -- `tag` reads its argument off the front of the input.
  pub tag_lem : (t i : Bytes) → tag t i ≡ tagged t (strip t i)
  -- `take_until` reads up to the first occurrence of its argument.
  pub take_until_lem : (t i : Bytes) → take_until t i ≡ until (split_first t i)
  pub u8-nil : u8 [] ≡ error
  pub u8-cons : (x : ℕ) (i : Bytes) → u8 (x ∷ i) ≡ ok (i, x)
  pub be_u16-nil : be_u16 [] ≡ error
  pub be_u16-one : (x : ℕ) → be_u16 (x ∷ []) ≡ error
  pub be_u16-cons : (x y : ℕ) (i : Bytes) → be_u16 (x ∷ y ∷ i) ≡ ok (i, x * 256 + y)
  pub opt_lem : {A : Type 0} (p : Parser A) (i : Bytes) → opt p i ≡ optional i (p i)
  pub and_lem :
      {A B : Type 0} (p : Parser A) (q : Parser B) (i : Bytes)
      → and p q i ≡ (p i >>= λ (i', a). q i' >>= λ (rest, b). ok (rest, (a, b)))
  -- The second parser runs on what the first one read, and what it leaves is dropped.
  pub and_then_lem :
      {A : Type 0} (p : Parser Bytes) (q : Parser A) (i : Bytes)
      → and_then p q i ≡ (p i >>= λ (rest, inner). q inner >>= λ (_, a). ok (rest, a))
  pub or_lem : {A : Type 0} (p q : Parser A) (i : Bytes) → or p q i ≡ or_else (p i) (q i)
  pub alt-nil : {A : Type 0} (i : Bytes) → alt {A = A} [] i ≡ error
  pub alt-cons :
      {A : Type 0} (p : Parser A) (ps : List (Parser A)) (i : Bytes)
      → alt (p ∷ ps) i ≡ or_else (p i) (alt ps i)
