-- ===== src/Gecko/Overlay.antt =====
-- What the memory of intouch2/src/datas.rs holds, byte by byte, after bytes were written to it.
use intouch2_mqtt.Base.{
  ℕ, zero, suc, ◌+◌, ◌≤◌, ◌≡◌, refl, ap, sym, ◌∙◌, Option, [], ◌∷◌, ◌++◌, Bytes, arith, ◌==◌,
  if◌then◌else◌, length, take, drop, get_elem?,
}
use intouch2_mqtt.Gecko.{Range, splice}

-- The bytes with others over them from a position on.
abbrev pub overlay : ℕ → Bytes → Bytes → Bytes
overlay pos new [] = []
overlay pos [] (x ∷ old) = x ∷ old
overlay zero (b ∷ new) (x ∷ old) = b ∷ overlay zero new old
overlay (suc pos) (b ∷ new) (x ∷ old) = x ∷ overlay pos (b ∷ new) old

pub length-overlay : (pos : ℕ) (new old : Bytes) → length (overlay pos new old) ≡ length old
length-overlay pos new [] = refl
length-overlay pos [] (x ∷ old) = refl
length-overlay zero (b ∷ new) (x ∷ old) = ap suc (length-overlay zero new old)
length-overlay (suc pos) (b ∷ new) (x ∷ old) = ap suc (length-overlay pos (b ∷ new) old)

overlay-none : (pos : ℕ) (old : Bytes) → overlay pos [] old ≡ old
overlay-none pos [] = refl
overlay-none pos (x ∷ old) = refl

pub take-overlay :
    (n pos : ℕ) (new old : Bytes) → take n (overlay pos new old) ≡ overlay pos new (take n old)
take-overlay zero pos new old = refl
take-overlay (suc n) pos new [] = refl
take-overlay (suc n) pos [] (x ∷ old) = refl
take-overlay (suc n) zero (b ∷ new) (x ∷ old) = ap (◌∷◌ b) (take-overlay n zero new old)
take-overlay (suc n) (suc pos) (b ∷ new) (x ∷ old) = ap (◌∷◌ x) (take-overlay n pos (b ∷ new) old)

-- Replacing a range that is inside is writing over it.
pub splice-overlay :
    (pos end : ℕ) (new old : Bytes)
    → end ≡ pos + length new
    → end ≤ length old
    → take pos old ++ (new ++ drop end old) ≡ overlay pos new old
splice-overlay zero zero [] old e h = sym (overlay-none zero old)
splice-overlay zero (suc end) [] old e h = absurd (omega arith)
splice-overlay zero zero (b ∷ new) old e h = absurd (omega arith)
splice-overlay zero (suc end) (b ∷ new) [] e h = absurd (omega arith)
splice-overlay zero (suc end) (b ∷ new) (x ∷ old) e h =
    ap (◌∷◌ b) (splice-overlay zero end new old (omega arith) (omega arith))
splice-overlay (suc pos) zero new old e h = absurd (omega arith)
splice-overlay (suc pos) (suc end) new [] e h = absurd (omega arith)
splice-overlay (suc pos) (suc end) [] (x ∷ old) e h =
    ap (◌∷◌ x) (splice-overlay pos end [] old (omega arith) (omega arith) ∙ overlay-none pos old)
splice-overlay (suc pos) (suc end) (b ∷ new) (x ∷ old) e h =
    ap (◌∷◌ x) (splice-overlay pos end (b ∷ new) old (omega arith) (omega arith))

-- The bytes before a position, after a range was replaced.
pub take-splice :
    (n : ℕ) (r : Range) (new old : Bytes)
    → r.end ≡ r.start + length new
    → r.end ≤ length old
    → take n (splice r new old) ≡ overlay r.start new (take n old)
take-splice n r new old e h =
    ap (take n) (splice-overlay r.start r.end new old e h) ∙ take-overlay n r.start new old

-- The byte at a position, after two bytes were written.
abbrev pub byte_over : ℕ → Bytes → ℕ → Option ℕ → Option ℕ
byte_over pos new i old =
    if i == pos then get_elem? new 0 else if i == pos + 1 then get_elem? new 1 else old

pub get_elem?-overlay :
    (pos a b : ℕ) (old : Bytes) (i : ℕ)
    → pos + 2 ≤ length old
    → get_elem? (overlay pos (a ∷ b ∷ []) old) i ≡ byte_over pos (a ∷ b ∷ []) i (get_elem? old i)
get_elem?-overlay zero a b [] i h = absurd (omega arith)
get_elem?-overlay zero a b (x ∷ []) i h = absurd (omega arith)
get_elem?-overlay zero a b (x ∷ y ∷ old) zero h = refl
get_elem?-overlay zero a b (x ∷ y ∷ old) (suc zero) h = refl
get_elem?-overlay zero a b (x ∷ y ∷ []) (suc (suc i)) h = ground arith
get_elem?-overlay zero a b (x ∷ y ∷ z ∷ old) (suc (suc i)) h = ground arith
get_elem?-overlay (suc pos) a b [] i h = absurd (omega arith)
get_elem?-overlay (suc pos) a b (x ∷ old) zero h = ground arith
get_elem?-overlay (suc pos) a b (x ∷ old) (suc i) h =
    ground (arith, get_elem?-overlay pos a b old i (omega arith))

-- The byte at a position, after a range of two was replaced.
pub get_elem?-splice :
    (r : Range) (new old : Bytes) (i : ℕ)
    → length new ≡ 2
    → r.end ≡ r.start + 2
    → r.end ≤ length old
    → get_elem? (splice r new old) i ≡ byte_over r.start new i (get_elem? old i)
get_elem?-splice r [] old i two e h = absurd (omega arith)
get_elem?-splice r (a ∷ []) old i two e h = absurd (omega arith)
get_elem?-splice r (a ∷ b ∷ []) old i two e h =
    ap (λ xs. get_elem? xs i)
      (splice-overlay r.start r.end (a ∷ b ∷ []) old (omega arith) (omega arith))
    ∙ get_elem?-overlay r.start a b old i (omega arith)
get_elem?-splice r (a ∷ b ∷ c ∷ new) old i two e h = absurd (omega arith)
