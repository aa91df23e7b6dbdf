-- ===== src/Framing/Outcome.antt =====
-- What reading a message can end in.
use intouch2_mqtt.Base.{
  ℕ, ◌<◌, ◌≡◌, ◌≢◌, refl, Option, none, some, [], ◌∷◌, ◌++◌, Bytes, codes, length,
}
use intouch2_mqtt.Nom.{
  IResult, ok, error, failure, panic, out_of_fuel, incomplete, Parser, ◌>>=◌, strip, split_first,
  tagged, until, or_else, Nom,
}
use intouch2_mqtt.Object.{NetworkPackageData}
use intouch2_mqtt.Object.Codec.{parse}
use intouch2_mqtt.Object.Totality.{Concludes, parse-Concludes}
use intouch2_mqtt.Object.Defects.{parse-truncated_push_status}
use intouch2_mqtt.Framing.{
  NetworkPackage, panicked, diverged, whole, finish, surrounded, parse_hello_package, parse_datas,
  parse_addressed_package, parse_network_data,
}
use intouch2_mqtt.Framing.RoundTrip.{
  Absent, AbsentFrom, dst_part, datas_part, inner, packt_tail, inner-inside, surrounded-close,
  surrounded-miss, opt_part, other_mark,
}

-- The outcomes that the program can show.
abbrev Settles {ℓ} : {A : Type ℓ} → IResult A → Type 0
Settles out_of_fuel = ⊥
Settles (ok a) = Unit
Settles error = Unit
Settles failure = Unit
Settles panic = Unit
Settles (incomplete k) = Unit

Settles-bind {ℓ κ} :
    {A : Type ℓ} {B : Type κ} (m : IResult A) (f : A → IResult B)
    → Settles m
    → ((a : A) → Settles (f a))
    → Settles (m >>= f)
Settles-bind (ok a) f s h = h a
Settles-bind error f s h = tt
Settles-bind failure f s h = tt
Settles-bind panic f s h = tt
Settles-bind out_of_fuel f s h = s
Settles-bind (incomplete k) f s h = tt

Settles-or_else {ℓ} : {A : Type ℓ} (r s : IResult A) → Settles r → Settles s → Settles (or_else r s)
Settles-or_else (ok a) s h k = tt
Settles-or_else error s h k = k
Settles-or_else failure s h k = tt
Settles-or_else panic s h k = tt
Settles-or_else out_of_fuel s h k = h
Settles-or_else (incomplete m) s h k = tt

Settles-tagged : (t : Bytes) (o : Option Bytes) → Settles (tagged t o)
Settles-tagged t none = tt
Settles-tagged t (some r) = tt

Settles-until : (o : Option (Bytes × Bytes)) → Settles (until o)
Settles-until none = tt
Settles-until (some r) = tt

Settles-whole : (r : Bytes × NetworkPackageData) → Settles (whole r)
Settles-whole ([], a) = tt
Settles-whole (x ∷ rest, a) = tt

Settles-of_Concludes {ℓ} :
    {A : Type ℓ} (k : ℕ) (r : IResult (Bytes × A)) → Concludes k r → Settles r
Settles-of_Concludes k (ok a) c = tt
Settles-of_Concludes k error c = tt
Settles-of_Concludes k failure c = tt
Settles-of_Concludes k panic c = tt
Settles-of_Concludes k out_of_fuel c = c
Settles-of_Concludes k (incomplete m) c = tt

finish-settled : (r : IResult (Bytes × NetworkPackage)) → Settles r → finish r ≢ diverged
finish-settled (ok ([], msg)) s = cc
finish-settled (ok (x ∷ tail, msg)) s = cc
finish-settled error s = cc
finish-settled failure s = cc
finish-settled panic s = cc
finish-settled out_of_fuel s = absurd s
finish-settled (incomplete k) s = cc

module _ (n : Nom) where
  Settles-and :
      {A B : Type 0} (p : Parser A) (q : Parser B) (i : Bytes)
      → ((j : Bytes) → Settles (p j))
      → ((j : Bytes) → Settles (q j))
      → Settles (n.and p q i)
  Settles-and p q i h k =
      rw (n.and_lem p q i)
        (Settles-bind (p i) _ (h i) λ (i', a). Settles-bind (q i') _ (k i') λ (rest, b). tt)

  Settles-tag : (t i : Bytes) → Settles (n.tag t i)
  Settles-tag t i = rw (n.tag_lem t i) (Settles-tagged t (strip t i))

  Settles-surrounded : (before after i : Bytes) → Settles (surrounded n before after i)
  unfolding surrounded
  Settles-surrounded before after i =
      Settles-bind (n.and (n.and (n.tag before) (n.take_until after)) (n.tag after) i) _
        (Settles-and (n.and (n.tag before) (n.take_until after)) (n.tag after) i
          (λ j.
            Settles-and (n.tag before) (n.take_until after) j (Settles-tag before)
              (λ l. rw (n.take_until_lem after l) (Settles-until (split_first after l))))
          (Settles-tag after))
        (λ r. tt)

  Settles-parse_datas : (i : Bytes) → Settles (parse_datas n i)
  unfolding parse_datas
  Settles-parse_datas i =
      Settles-bind (surrounded n (codes "<DATAS>") (codes "</DATAS>") i) _
        (Settles-surrounded _ _ i)
        λ (i', datas).
          Settles-bind (parse n datas) _
            (Settles-of_Concludes (length datas) (parse n datas) (parse-Concludes n datas))
            λ r. Settles-bind (whole r) _ (Settles-whole r) λ d. tt

  Settles-opt : (p : Parser Bytes) (i : Bytes) → ((j : Bytes) → Settles (p j)) → Settles (n.opt p i)
  Settles-opt p i h =
      rw (n.opt_lem p i)
        (Settles-or_else _ (ok (i, none)) (Settles-bind (p i) _ (h i) (λ r. tt)) tt)

  Settles-addressed : (i : Bytes) → Settles (parse_addressed_package n i)
  unfolding parse_addressed_package
  Settles-addressed i =
      Settles-bind (n.and_then mark body i) _
        (rw (n.and_then_lem mark body i) (
          Settles-bind (mark i) _ (Settles-surrounded _ _ i) λ (rest, content).
            Settles-bind (body content) _
              (Settles-and addresses (parse_datas n) content
                (λ j.
                  Settles-and source target j (λ l. Settles-opt _ l (Settles-surrounded _ _))
                    (λ l. Settles-opt _ l (Settles-surrounded _ _)))
                Settles-parse_datas)
              λ (_, r). tt))
        λ r. tt
    where
      mark : Parser Bytes
      mark = surrounded n (codes "<PACKT>") (codes "</PACKT>")

      source : Parser (Option Bytes)
      source = n.opt (surrounded n (codes "<SRCCN>") (codes "</SRCCN>"))

      target : Parser (Option Bytes)
      target = n.opt (surrounded n (codes "<DESCN>") (codes "</DESCN>"))

      addresses : Parser (Option Bytes × Option Bytes)
      addresses = n.and source target

      body : Parser ((Option Bytes × Option Bytes) × NetworkPackageData)
      body = n.and addresses (parse_datas n)

  Settles-hello : (i : Bytes) → Settles (parse_hello_package n i)
  unfolding parse_hello_package
  Settles-hello i =
      Settles-bind (surrounded n (codes "<HELLO>") (codes "</HELLO>") i) _
        (Settles-surrounded _ _ i) λ r. tt

  -- Reading a message always ends: for no byte string does a loop of the reader go on for ever.
  pub parse_network_data_ends : (i : Bytes) → parse_network_data n i ≢ diverged
  unfolding parse_network_data
  parse_network_data_ends i = rw (n.or_lem (parse_hello_package n) (parse_addressed_package n) i) (
      finish-settled _ (
        Settles-or_else (parse_hello_package n i) (parse_addressed_package n i) (Settles-hello i)
          (Settles-addressed i)))

  datas_panic :
      (datas : Bytes)
      → parse n datas ≡ panic
      → Absent (codes "</DATAS>") datas
      → parse_datas n (datas_part datas) ≡ panic
  unfolding parse_datas
  datas_panic datas e h =
      rw (surrounded-close n (codes "<DATAS>") (codes "/DATAS>") datas [] refl h) (rw e)

  addressed_panic :
      (src dst : Option Bytes) (datas : Bytes)
      → parse n datas ≡ panic
      → AbsentFrom (codes "</SRCCN>") src
      → AbsentFrom (codes "</DESCN>") dst
      → Absent (codes "</DATAS>") datas
      → Absent (codes "</PACKT>") (inner src dst datas)
      → parse_addressed_package n (codes "<PACKT>" ++ (inner src dst datas ++ codes "</PACKT>"))
        ≡ panic
  unfolding parse_addressed_package
  addressed_panic src dst datas e hs hd h hp = simp (
    n.and_then_lem,
    surrounded-close n (codes "<PACKT>") packt_tail (inner src dst datas) [] refl hp,
    n.and_lem,
    opt_part n (codes "<SRCCN>") (codes "/SRCCN>") src (dst_part dst ++ datas_part datas) refl hs
        (other_mark n dst datas),
    opt_part n (codes "<DESCN>") (codes "/DESCN>") dst (datas_part datas) refl hd refl,
    datas_panic datas e h,
  )

  -- A datagram with a pushed status whose first change has fewer than two bytes of value makes
  -- the reader panic, if neither the addresses nor the package hold a closing mark that the
  -- reader looks for around them.
  pub parse_network_data-truncated :
      (src dst : Option Bytes) (len hi lo : ℕ) (short : Bytes)
      → length short < 2
      → AbsentFrom (codes "</SRCCN>") src
      → AbsentFrom (codes "</DESCN>") dst
      → AbsentFrom (codes "</PACKT>") src
      → AbsentFrom (codes "</PACKT>") dst
      → Absent (codes "</DATAS>") (codes "STATP" ++ len ∷ hi ∷ lo ∷ short)
      → Absent (codes "</PACKT>") (codes "STATP" ++ len ∷ hi ∷ lo ∷ short)
      → parse_network_data n (
          codes "<PACKT>"
          ++ (inner src dst (codes "STATP" ++ len ∷ hi ∷ lo ∷ short) ++ codes "</PACKT>"))
        ≡ panicked
  unfolding parse_network_data parse_hello_package
  parse_network_data-truncated src dst len hi lo short cut hs hd ps pd h hp =
      rw (n.or_lem (parse_hello_package n) (parse_addressed_package n) _) (
        rw (surrounded-miss n (codes "<HELLO>") (codes "</HELLO>") _ refl) (
          rw (
            addressed_panic src dst (codes "STATP" ++ len ∷ hi ∷ lo ∷ short)
              (parse-truncated_push_status n len hi lo short cut) hs hd h
              (inner-inside src dst (codes "STATP" ++ len ∷ hi ∷ lo ∷ short) ps pd hp))))
