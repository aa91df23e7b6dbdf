-- ===== src/Framing/RoundTrip.antt =====
-- Reading a composed message.
use intouch2_mqtt.Base.{
  ◌≡◌, refl, true, Option, none, some, [], ◌∷◌, ◌++◌, append_assoc, Bytes, codes,
}
use intouch2_mqtt.Nom.{ok, error, strip, split_first, Nom}
use intouch2_mqtt.Object.{NetworkPackageData}
use intouch2_mqtt.Object.Codec.{compose}
use intouch2_mqtt.Object.Schema.{IsCanonical}
use intouch2_mqtt.Object.RoundTrip.{tag-append}
use intouch2_mqtt.Object.Dispatch.{parse-compose}
use intouch2_mqtt.Framing.{
  addressed, hello, parsed, compose_option, compose_network_data, surrounded, parse_hello_package,
  parse_datas, parse_addressed_package, parse_network_data,
}
use intouch2_mqtt.Framing.Search.{
  angle, no_angle, push_all-none, split_first-angle, split_first-close,
}

-- The mark does not occur.
abbrev pub Absent : Bytes → Bytes → Type 0
Absent t i = split_first t i ≡ none

abbrev pub AbsentFrom : Bytes → Option Bytes → Type 0
AbsentFrom t none = Unit
AbsentFrom t (some x) = Absent t x

-- No content holds a mark that closes a part around it.
pub record IsFramed (src dst : Option Bytes) (d : NetworkPackageData) : Type 0 where
  pub canonical : IsCanonical d
  pub src_closed : AbsentFrom (codes "</SRCCN>") src
  pub dst_closed : AbsentFrom (codes "</DESCN>") dst
  pub datas_closed : Absent (codes "</DATAS>") (compose d)
  pub src_inside : AbsentFrom (codes "</PACKT>") src
  pub dst_inside : AbsentFrom (codes "</PACKT>") dst
  pub datas_inside : Absent (codes "</PACKT>") (compose d)

abbrev pub src_part : Option Bytes → Bytes
src_part src = compose_option (codes "<SRCCN>") src (codes "</SRCCN>")

abbrev pub dst_part : Option Bytes → Bytes
dst_part dst = compose_option (codes "<DESCN>") dst (codes "</DESCN>")

abbrev pub datas_part : Bytes → Bytes
datas_part b = codes "<DATAS>" ++ (b ++ codes "</DATAS>")

-- What stands between the marks of an addressed package.
abbrev pub inner : Option Bytes → Option Bytes → Bytes → Bytes
inner src dst b = src_part src ++ (dst_part dst ++ datas_part b)

abbrev pub packt_tail : Bytes
packt_tail = codes "/PACKT>"

datas_part-inside :
    (b : Bytes) → Absent (codes "</PACKT>") b → Absent (codes "</PACKT>") (datas_part b)
datas_part-inside b h =
    rw (split_first-angle packt_tail b (codes "/DATAS>") refl h) (rw (push_all-none b))

dst_part-inside :
    (dst : Option Bytes) (b : Bytes)
    → AbsentFrom (codes "</PACKT>") dst
    → Absent (codes "</PACKT>") b
    → Absent (codes "</PACKT>") (dst_part dst ++ datas_part b)
dst_part-inside none b h k = datas_part-inside b k
dst_part-inside (some x) b h k = rw (append_assoc x (codes "</DESCN>") (datas_part b)) (
    rw (split_first-angle packt_tail x (codes "/DESCN>" ++ datas_part b) refl h)
      (rw (datas_part-inside b k) (rw (push_all-none x))))

-- The closing mark of the package is not inside it.
pub inner-inside :
    (src dst : Option Bytes) (b : Bytes)
    → AbsentFrom (codes "</PACKT>") src
    → AbsentFrom (codes "</PACKT>") dst
    → Absent (codes "</PACKT>") b
    → Absent (codes "</PACKT>") (inner src dst b)
inner-inside none dst b g h k = dst_part-inside dst b h k
inner-inside (some x) dst b g h k =
    rw (append_assoc x (codes "</SRCCN>") (dst_part dst ++ datas_part b)) (
      rw (split_first-angle packt_tail x (codes "/SRCCN>" ++ (dst_part dst ++ datas_part b)) refl g)
        (rw (dst_part-inside dst b h k) (rw (push_all-none x))))

module _ (n : Nom) where
  -- A part between marks is read, up to its closing mark.
  pub surrounded-close :
      (before p c r : Bytes)
      → no_angle p ≡ true
      → Absent (angle ∷ p) c
      → surrounded n before (angle ∷ p) (before ++ (c ++ angle ∷ (p ++ r))) ≡ ok (r, c)
  unfolding surrounded
  surrounded-close before p c r a h = simp (
    n.and_lem,
    tag-append n,
    n.take_until_lem,
    split_first-close p c r a h,
    tag-append n (angle ∷ p) r,
  )

  pub surrounded-miss :
      (before after i : Bytes) → strip before i ≡ none → surrounded n before after i ≡ error
  unfolding surrounded
  surrounded-miss before after i h = simp (n.and_lem, n.tag_lem) (rw h)

  -- An optional part reads back what `compose_option` wrote.
  pub opt_part :
      (before p : Bytes) (o : Option Bytes) (rest : Bytes)
      → no_angle p ≡ true
      → AbsentFrom (angle ∷ p) o
      → strip before rest ≡ none
      → n.opt (surrounded n before (angle ∷ p)) (compose_option before o (angle ∷ p) ++ rest)
        ≡ ok (rest, o)
  opt_part before p none rest a h other =
      simp n.opt_lem (rw (surrounded-miss before (angle ∷ p) rest other))
  opt_part before p (some x) rest a h other =
      simp (n.opt_lem, append_assoc) (rw (surrounded-close before p x rest a h))

  parse_datas-compose :
      (d : NetworkPackageData)
      → IsCanonical d
      → Absent (codes "</DATAS>") (compose d)
      → parse_datas n (datas_part (compose d)) ≡ ok ([], d)
  unfolding parse_datas
  parse_datas-compose d canonical h =
      rw (surrounded-close (codes "<DATAS>") (codes "/DATAS>") (compose d) [] refl h)
        (rw (parse-compose n d canonical))

  pub other_mark :
      (dst : Option Bytes) (b : Bytes)
      → strip (codes "<SRCCN>") (dst_part dst ++ datas_part b) ≡ none
  other_mark none b = refl
  other_mark (some x) b = refl

  compose-inner :
      (src dst : Option Bytes) (d : NetworkPackageData)
      → compose_network_data (addressed src dst d)
        ≡ codes "<PACKT>" ++ (inner src dst (compose d) ++ codes "</PACKT>")
  unfolding compose_network_data
  compose-inner src dst d = simp append_assoc

  hello_miss :
      (src dst : Option Bytes) (d : NetworkPackageData)
      → parse_hello_package n (compose_network_data (addressed src dst d)) ≡ error
  unfolding parse_hello_package compose_network_data
  hello_miss src dst d = rw (
      surrounded-miss (codes "<HELLO>") (codes "</HELLO>")
        (compose_network_data (addressed src dst d)) refl)

  parse_addressed-compose :
      (src dst : Option Bytes) (d : NetworkPackageData)
      → IsFramed src dst d
      → parse_addressed_package n (compose_network_data (addressed src dst d))
        ≡ ok ([], addressed src dst d)
  unfolding parse_addressed_package
  parse_addressed-compose src dst d f = rw (compose-inner src dst d) (
      simp (
        n.and_then_lem,
        surrounded-close (codes "<PACKT>") packt_tail (inner src dst (compose d)) [] refl
            (inner-inside src dst (compose d) f.src_inside f.dst_inside f.datas_inside),
        n.and_lem,
        opt_part (codes "<SRCCN>") (codes "/SRCCN>") src (dst_part dst ++ datas_part (compose d))
            refl f.src_closed (other_mark dst (compose d)),
        opt_part (codes "<DESCN>") (codes "/DESCN>") dst (datas_part (compose d)) refl f.dst_closed
            refl,
        parse_datas-compose d f.canonical f.datas_closed,
      ))

  -- An addressed message is read back as it was, if its package is canonical and no part of it
  -- holds a closing mark that the reader looks for around that part.
  pub parse-compose_addressed :
      (src dst : Option Bytes) (d : NetworkPackageData)
      → IsFramed src dst d
      → parse_network_data n (compose_network_data (addressed src dst d))
        ≡ parsed (addressed src dst d)
  unfolding parse_network_data
  parse-compose_addressed src dst d f =
      rw
        (n.or_lem (parse_hello_package n) (parse_addressed_package n)
          (compose_network_data (addressed src dst d)))
        (rw (hello_miss src dst d) (rw (parse_addressed-compose src dst d f)))

  -- A greeting is read back as it was, if its name does not hold the closing mark.
  pub parse-compose_hello :
      (x : Bytes)
      → Absent (codes "</HELLO>") x
      → parse_network_data n (compose_network_data (hello x)) ≡ parsed (hello x)
  unfolding parse_network_data compose_network_data parse_hello_package
  parse-compose_hello x h =
      simp (n.or_lem, surrounded-close (codes "<HELLO>") (codes "/HELLO>") x [] refl h)
