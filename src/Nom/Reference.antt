-- ===== src/Nom/Reference.antt =====
-- Concrete combinators: the documented behaviour that `Nom` states can be met, and the model runs.
use intouch2_mqtt.Base.{ℕ, ◌+◌, ◌*◌, refl, List, [], ◌∷◌}
use intouch2_mqtt.Nom.{
  ok, error, ◌>>=◌, Parser, or_else, optional, strip, split_first, tagged, until, Nom,
}

abbrev first_byte : Parser ℕ
first_byte [] = error
first_byte (x ∷ i) = ok (i, x)

abbrev first_two_bytes : Parser ℕ
first_two_bytes [] = error
first_two_bytes (x ∷ []) = error
first_two_bytes (x ∷ y ∷ i) = ok (i, x * 256 + y)

abbrev first_success : {A : Type 0} → List (Parser A) → Parser A
first_success [] i = error
first_success (p ∷ ps) i = or_else (p i) (first_success ps i)

abbrev pub reference : Nom
reference = record {
  tag = λ t i. tagged t (strip t i);
  take_until = λ t i. until (split_first t i);
  u8 = first_byte;
  be_u16 = first_two_bytes;
  opt = λ p i. optional i (p i);
  and = λ p q i. p i >>= λ (i', a). q i' >>= λ (rest, b). ok (rest, (a, b));
  and_then = λ p q i. p i >>= λ (rest, inner). q inner >>= λ (_, a). ok (rest, a);
  or = λ p q i. or_else (p i) (q i);
  alt = first_success;
  tag_lem = λ t i. refl;
  take_until_lem = λ t i. refl;
  u8-nil = refl;
  u8-cons = λ x i. refl;
  be_u16-nil = refl;
  be_u16-one = λ x. refl;
  be_u16-cons = λ x y i. refl;
  opt_lem = λ p i. refl;
  and_lem = λ p q i. refl;
  and_then_lem = λ p q i. refl;
  or_lem = λ p q i. refl;
  alt-nil = λ i. refl;
  alt-cons = λ p ps i. refl;
}
