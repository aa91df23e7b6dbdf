-- ===== src/Framing/Written.antt =====
-- What a datagram looks like that intouch2/src/parser.rs reads as a message.
use intouch2_mqtt.Base.{
  ◌≡◌, refl, ap, sym, ◌∙◌, ◌⊎◌, inl, inr, Option, none, some, [], ◌∷◌, ◌++◌, append_assoc, Bytes,
  codes, ◌==◌, ==_iff, Bool-cases,
}
use intouch2_mqtt.Nom.{
  Parser, IResult, ok, error, failure, panic, out_of_fuel, incomplete, ◌>>=◌, or_else, optional,
  strip, push_before, cut_here, split_first, tagged, until, Nom,
}
use intouch2_mqtt.Object.{NetworkPackageData}
use intouch2_mqtt.Object.Codec.{parse}
use intouch2_mqtt.Framing.{
  NetworkPackage, addressed, hello, parsed, compose_option, compose_network_data, whole, finish,
  surrounded, parse_hello_package, parse_datas, parse_addressed_package, parse_network_data,
}

ok-bind :
    {A B : Type 0} (m : IResult A) (f : A → IResult B) (b : B)
    → (m >>= f) ≡ ok b
    → (a : A) × (m ≡ ok a) × (f a ≡ ok b)
ok-bind (ok a) f b h = (a, refl, h)
ok-bind error f b h = cc
ok-bind failure f b h = cc
ok-bind panic f b h = cc
ok-bind out_of_fuel f b h = cc
ok-bind (incomplete k) f b h = cc

eq_of_ok : {A : Type 0} {a b : A} → ok a ≡ ok b → a ≡ b
eq_of_ok h = cc

strip-some : (t i r : Bytes) → strip t i ≡ some r → i ≡ t ++ r
strip-some [] i r h = cc
strip-some (x ∷ t) [] r h = cc
strip-some (x ∷ t) (y ∷ i) r h = elim (Bool-cases (x == y)) [
  | inl same ↦
      let rest : strip t i ≡ some r = rw same at h in
      let heads : x ≡ y = (==_iff x y).0 same in rw (heads, strip-some t i r rest) refl
  | inr other ↦ let e : none ≡ some r = rw other at h in cc
]

split_first-some :
    (t i before from : Bytes) → split_first t i ≡ some (before, from) → i ≡ before ++ from
split_first-some t [] before from h = cut (strip t []) h
  where
    cut : (o : Option Bytes) → cut_here o [] none ≡ some (before, from) → [] ≡ before ++ from
    cut none e = cc
    cut (some r) e = let b : [] ≡ before = cc in let f : [] ≡ from = cc in rw (sym b, sym f) refl
split_first-some t (x ∷ i) before from h =
    cut (strip t (x ∷ i)) (split_first t i) (split_first-some t i) h
  where
    cut :
        (o : Option Bytes) (later : Option (Bytes × Bytes))
        → ((b f : Bytes) → later ≡ some (b, f) → i ≡ b ++ f)
        → cut_here o (x ∷ i) (push_before x later) ≡ some (before, from)
        → x ∷ i ≡ before ++ from
    cut (some r) later k e = let b : [] ≡ before = cc in let f : x ∷ i ≡ from = cc in rw (sym b) f
    cut none none k e = cc
    cut none (some (b, f)) k e =
        let bs : x ∷ b ≡ before = cc in
        let fs : f ≡ from = cc in rw (sym bs, sym fs) (ap (◌∷◌ x) (k b f refl))

tagged-ok :
    (t : Bytes) (o : Option Bytes) (rest a : Bytes) → tagged t o ≡ ok (rest, a) → o ≡ some rest
tagged-ok t none rest a h = cc
tagged-ok t (some r) rest a h = cc

until-ok :
    (o : Option (Bytes × Bytes)) (from before : Bytes)
    → until o ≡ ok (from, before)
    → o ≡ some (before, from)
until-ok none from before h = cc
until-ok (some (b, f)) from before h = cc

whole-ok : {A : Type 0} (r : Bytes × A) (a : A) → whole r ≡ ok a → r ≡ ([], a)
whole-ok ([], a') a h = cc
whole-ok (x ∷ rest, a') a h = cc

finish-parsed :
    (r : IResult (Bytes × NetworkPackage)) (p : NetworkPackage)
    → finish r ≡ parsed p
    → r ≡ ok ([], p)
finish-parsed (ok ([], q)) p h = cc
finish-parsed (ok (x ∷ tail, q)) p h = cc
finish-parsed error p h = cc
finish-parsed failure p h = cc
finish-parsed panic p h = cc
finish-parsed out_of_fuel p h = cc
finish-parsed (incomplete k) p h = cc

module _ (n : Nom) where
  tag-ok : (t i rest a : Bytes) → n.tag t i ≡ ok (rest, a) → i ≡ t ++ rest
  tag-ok t i rest a h =
      strip-some t i rest (tagged-ok t (strip t i) rest a (sym (n.tag_lem t i) ∙ h))

  take_until-ok :
      (t i from before : Bytes) → n.take_until t i ≡ ok (from, before) → i ≡ before ++ from
  take_until-ok t i from before h =
      split_first-some t i before from
        (until-ok (split_first t i) from before (sym (n.take_until_lem t i) ∙ h))

  and-ok :
      {A B : Type 0} (p : Parser A) (q : Parser B) (i rest : Bytes) (a : A) (b : B)
      → n.and p q i ≡ ok (rest, (a, b))
      → (i' : Bytes) × (p i ≡ ok (i', a)) × (q i' ≡ ok (rest, b))
  and-ok p q i rest a b h =
      let (r, first, e) = ok-bind (p i) _ _ (sym (n.and_lem p q i) ∙ h) in
      let (s, second, e') = ok-bind (q r.0) _ _ e in
      let rests : s.0 ≡ rest = cc in
      let firsts : r.1 ≡ a = cc in
      let bs : s.1 ≡ b = cc in
      (
        r.0,
        first ∙ ap (λ x. ok (r.0, x)) firsts,
        second ∙ ap (λ x. ok (x, s.1)) rests ∙ ap (λ x. ok (rest, x)) bs,
      )

  surrounded-ok :
      (before after i rest c : Bytes)
      → surrounded n before after i ≡ ok (rest, c)
      → i ≡ before ++ (c ++ (after ++ rest))
  unfolding surrounded
  surrounded-ok before after i rest c h =
      let (r, read, e) =
        ok-bind (n.and (n.and (n.tag before) (n.take_until after)) (n.tag after) i) _ _ h in
      let rests : r.0 ≡ rest = cc in
      let cs : r.1.0.1 ≡ c = cc in
      let (i₁, both, closing) =
        and-ok (n.and (n.tag before) (n.take_until after)) (n.tag after) i r.0 r.1.0 r.1.1 read in
      let (i₂, opening, inside) =
        and-ok (n.tag before) (n.take_until after) i i₁ r.1.0.0 r.1.0.1 both in
      tag-ok before i i₂ r.1.0.0 opening
      ∙ ap (λ x. before ++ x)
          (take_until-ok after i₂ i₁ r.1.0.1 inside
            ∙ ap (λ x. r.1.0.1 ++ x)
                (tag-ok after i₁ r.0 r.1.1 closing ∙ ap (λ x. after ++ x) rests)
            ∙ ap (λ x. x ++ (after ++ rest)) cs)

  opt-ok :
      (before after i rest : Bytes) (o : Option Bytes)
      → n.opt (surrounded n before after) i ≡ ok (rest, o)
      → i ≡ compose_option before o after ++ rest
  opt-ok before after i rest o h =
      optional-ok (surrounded n before after i) (surrounded-ok before after i)
        (sym (n.opt_lem (surrounded n before after) i) ∙ h)
    where
      optional-ok :
          (r : IResult (Bytes × Bytes))
          → ((rest' c : Bytes) → r ≡ ok (rest', c) → i ≡ before ++ (c ++ (after ++ rest')))
          → optional i r ≡ ok (rest, o)
          → i ≡ compose_option before o after ++ rest
      optional-ok (ok (rest', c)) k e =
          let rests : rest' ≡ rest = cc in
          let os : some c ≡ o = cc in
          rw (sym os, sym rests)
            (k rest' c refl
              ∙ ap (λ x. before ++ x) (sym (append_assoc c after rest'))
              ∙ sym (append_assoc before (c ++ after) rest'))
      optional-ok error k e =
          let rests : i ≡ rest = cc in let os : none ≡ o = cc in rw (sym os) rests
      optional-ok failure k e = cc
      optional-ok panic k e = cc
      optional-ok out_of_fuel k e = cc
      optional-ok (incomplete m) k e = cc

  parse_datas-ok :
      (i rest : Bytes) (d : NetworkPackageData)
      → parse_datas n i ≡ ok (rest, d)
      → (datas : Bytes) × (i ≡ codes "<DATAS>" ++ (datas ++ (codes "</DATAS>" ++ rest)))
        × (parse n datas ≡ ok ([], d))
  unfolding parse_datas
  parse_datas-ok i rest d h =
      let (r, around, e) = ok-bind (surrounded n (codes "<DATAS>") (codes "</DATAS>") i) _ _ h in
      let (s, read, e') = ok-bind (parse n r.1) _ _ e in
      let (d', all, e'') = ok-bind (whole s) _ _ e' in
      let rests : r.0 ≡ rest = cc in
      let ds : d' ≡ d = cc in
      (
        r.1,
        surrounded-ok (codes "<DATAS>") (codes "</DATAS>") i r.0 r.1 around
            ∙ ap (λ x. codes "<DATAS>" ++ (r.1 ++ (codes "</DATAS>" ++ x))) rests,
        read ∙ ap ok (whole-ok s d' all) ∙ ap (λ x. ok ([], x)) ds,
      )

  -- The bytes of a message: a greeting as it is composed; otherwise the marks with the addresses and
  -- the package, behind which the outer mark may hold more that is not read.
  abbrev pub IsWritten : NetworkPackage → Bytes → Type 0
  IsWritten (hello id) i = i ≡ compose_network_data (hello id)
  IsWritten (addressed src dst d) i =
      (datas unread : Bytes) × (i
        ≡ codes "<PACKT>"
          ++ ((compose_option (codes "<SRCCN>") src (codes "</SRCCN>")
                ++ (compose_option (codes "<DESCN>") dst (codes "</DESCN>")
                    ++ (codes "<DATAS>" ++ (datas ++ (codes "</DATAS>" ++ unread)))))
              ++ (codes "</PACKT>")))
      × (parse n datas ≡ ok ([], d))

  hello-IsWritten :
      (i : Bytes) (p : NetworkPackage) → parse_hello_package n i ≡ ok ([], p) → IsWritten p i
  unfolding parse_hello_package compose_network_data
  hello-IsWritten i (hello id) h =
      let (r, around, e) = ok-bind (surrounded n (codes "<HELLO>") (codes "</HELLO>") i) _ _ h in
      let rests : r.0 ≡ [] = cc in
      let ids : r.1 ≡ id = cc in
      surrounded-ok (codes "<HELLO>") (codes "</HELLO>") i r.0 r.1 around
      ∙ ap (λ x. codes "<HELLO>" ++ (r.1 ++ (codes "</HELLO>" ++ x))) rests
      ∙ ap (λ x. codes "<HELLO>" ++ (x ++ codes "</HELLO>")) ids
  hello-IsWritten i (addressed src dst d) h =
      let (r, around, e) = ok-bind (surrounded n (codes "<HELLO>") (codes "</HELLO>") i) _ _ h in cc

  and_then-ok :
      {A : Type 0} (p : Parser Bytes) (q : Parser A) (i rest : Bytes) (a : A)
      → n.and_then p q i ≡ ok (rest, a)
      → (inside unread : Bytes) × (p i ≡ ok (rest, inside)) × (q inside ≡ ok (unread, a))
  and_then-ok p q i rest a h =
      let (r, outer, e) = ok-bind (p i) _ _ (sym (n.and_then_lem p q i) ∙ h) in
      let (s, inner, e') = ok-bind (q r.1) _ _ e in
      let rests : r.0 ≡ rest = cc in
      let values : s.1 ≡ a = cc in
      (r.1, s.0, outer ∙ ap (λ x. ok (x, r.1)) rests, inner ∙ ap (λ x. ok (s.0, x)) values)

  abbrev mark : Parser Bytes
  mark = surrounded n (codes "<PACKT>") (codes "</PACKT>")

  abbrev source : Parser (Option Bytes)
  source = n.opt (surrounded n (codes "<SRCCN>") (codes "</SRCCN>"))

  abbrev target : Parser (Option Bytes)
  target = n.opt (surrounded n (codes "<DESCN>") (codes "</DESCN>"))

  abbrev body : Parser ((Option Bytes × Option Bytes) × NetworkPackageData)
  body = n.and (n.and source target) (parse_datas n)

  marked-IsWritten :
      (i : Bytes) (src dst : Option Bytes) (d : NetworkPackageData)
      → n.and_then mark body i ≡ ok ([], ((src, dst), d))
      → IsWritten (addressed src dst d) i
  marked-IsWritten i src dst d h =
      let (inside, unread, outer, inner) = and_then-ok mark body i [] ((src, dst), d) h in
      let (i₁, both, last) =
        and-ok (n.and source target) (parse_datas n) inside unread (src, dst) d inner in
      let (i₂, first, second) = and-ok source target inside i₁ src dst both in
      let (datas, around, read) = parse_datas-ok i₁ unread d last in
      (
        datas,
        unread,
        surrounded-ok (codes "<PACKT>") (codes "</PACKT>") i [] inside outer
            ∙ ap (λ x. codes "<PACKT>" ++ (x ++ codes "</PACKT>"))
                (opt-ok (codes "<SRCCN>") (codes "</SRCCN>") inside i₂ src first
                  ∙ ap (λ x. compose_option (codes "<SRCCN>") src (codes "</SRCCN>") ++ x)
                      (opt-ok (codes "<DESCN>") (codes "</DESCN>") i₂ i₁ dst second
                        ∙ ap (λ x. compose_option (codes "<DESCN>") dst (codes "</DESCN>") ++ x)
                            around)),
        read,
      )

  addressed-IsWritten :
      (i : Bytes) (p : NetworkPackage) → parse_addressed_package n i ≡ ok ([], p) → IsWritten p i
  unfolding parse_addressed_package
  addressed-IsWritten i (hello id) h =
      let (r, read, e) = ok-bind (n.and_then mark body i) _ _ h in cc
  addressed-IsWritten i (addressed src dst d) h =
      let (r, read, e) = ok-bind (n.and_then mark body i) _ _ h in
      let rests : r.0 ≡ [] = cc in
      let srcs : r.1.0.0 ≡ src = cc in
      let dsts : r.1.0.1 ≡ dst = cc in
      let ds : r.1.1 ≡ d = cc in
      marked-IsWritten i src dst d (
        read
        ∙ ap (λ x. ok (x, r.1)) rests
        ∙ ap (λ x. ok ([], ((x, r.1.0.1), r.1.1))) srcs
        ∙ ap (λ x. ok ([], ((src, x), r.1.1))) dsts
        ∙ ap (λ x. ok ([], ((src, dst), x))) ds)

  or_else-ok : {A : Type 0} (r s : IResult A) (a : A) → or_else r s ≡ ok a → (r ≡ ok a) ⊎ (s ≡ ok a)
  or_else-ok (ok b) s a h = inl h
  or_else-ok error s a h = inr h
  or_else-ok failure s a h = cc
  or_else-ok panic s a h = cc
  or_else-ok out_of_fuel s a h = cc
  or_else-ok (incomplete k) s a h = cc

  -- Every datagram that is read as a message is a greeting as it is composed, or is <PACKT>, the
  -- marks with the source and the destination that were read, each where there is one, <DATAS>,
  -- bytes from which the package is read whole, </DATAS>, bytes that are not read, and </PACKT>.
  pub parse_network_data-IsWritten :
      (i : Bytes) (p : NetworkPackage) → parse_network_data n i ≡ parsed p → IsWritten p i
  unfolding parse_network_data
  parse_network_data-IsWritten i p h =
      let read = finish-parsed (n.or (parse_hello_package n) (parse_addressed_package n) i) p h in
      elim (or_else-ok (parse_hello_package n i) (parse_addressed_package n i) ([], p)
        (sym (n.or_lem (parse_hello_package n) (parse_addressed_package n) i) ∙ read)) [
          | inl e ↦ hello-IsWritten i p e
          | inr e ↦ addressed-IsWritten i p e
        ]
