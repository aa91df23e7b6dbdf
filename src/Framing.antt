-- ===== src/Framing.antt =====
-- Messages of the spa's protocol between their XML-like marks: intouch2/src/composer.rs and the
-- outer part of intouch2/src/parser.rs.
pub mod Search
pub mod RoundTrip
pub mod Outcome
pub mod Written
mod Examples
use intouch2_mqtt.Base.{ℕ, Option, none, some, List, [], ◌∷◌, ◌++◌, Bytes, codes}
use intouch2_mqtt.Nom.{
  IResult, ok, error, failure, panic, out_of_fuel, incomplete, ◌>>=◌, Parser, Nom,
}
use intouch2_mqtt.Object.{NetworkPackageData}
use intouch2_mqtt.Object.Codec.{compose, parse}

pub data NetworkPackage : Type 0 where
  addressed : Option Bytes → Option Bytes → NetworkPackageData → NetworkPackage
  hello : Bytes → NetworkPackage

-- `Result<NetworkPackage, ParseError>`; the last two are a panic and a loop out of fuel.
pub data ParseResult : Type 0 where
  parsed : NetworkPackage → ParseResult
  parser_error : ParseResult
  tailing_data : NetworkPackage → Bytes → ParseResult
  panicked diverged : ParseResult

abbrev pub compose_option : Bytes → Option Bytes → Bytes → Bytes
compose_option before (some x) after = before ++ (x ++ after)
compose_option before none after = []

unfoldable pub compose_network_data : NetworkPackage → Bytes
compose_network_data (hello x) = codes "<HELLO>" ++ (x ++ codes "</HELLO>")
compose_network_data (addressed src dst datas) =
    codes "<PACKT>"
    ++ (compose_option (codes "<SRCCN>") src (codes "</SRCCN>")
        ++ (compose_option (codes "<DESCN>") dst (codes "</DESCN>")
            ++ (codes "<DATAS>" ++ (compose datas ++ (codes "</DATAS>" ++ codes "</PACKT>")))))

-- `([], data)`, or a recoverable error.
abbrev pub whole {ℓ} : {A : Type ℓ} → Bytes × A → IResult A
whole ([], a) = ok a
whole (x ∷ rest, a) = error

abbrev pub finish : IResult (Bytes × NetworkPackage) → ParseResult
finish (ok ([], msg)) = parsed msg
finish (ok (x ∷ tail, msg)) = tailing_data msg (x ∷ tail)
finish error = parser_error
finish failure = parser_error
finish (incomplete k) = parser_error
finish panic = panicked
finish out_of_fuel = diverged

module _ (n : Nom) where
  unfoldable pub surrounded : Bytes → Bytes → Parser Bytes
  surrounded before after input = do
    (input', ((_, data'), _)) ←
        n.and (n.and (n.tag before) (n.take_until after)) (n.tag after) input
    ok (input', data')

  unfoldable pub parse_hello_package : Parser NetworkPackage
  parse_hello_package input = do
    (input', name) ← surrounded (codes "<HELLO>") (codes "</HELLO>") input
    ok (input', hello name)

  unfoldable pub parse_datas : Parser NetworkPackageData
  parse_datas input = do
    (input', datas) ← surrounded (codes "<DATAS>") (codes "</DATAS>") input
    r ← parse n datas
    d ← whole r
    ok (input', d)

  unfoldable pub parse_addressed_package : Parser NetworkPackage
  parse_addressed_package input = do
    (input', ((src, dst), datas)) ←
        n.and_then (surrounded (codes "<PACKT>") (codes "</PACKT>"))
          (n.and
            (n.and (n.opt (surrounded (codes "<SRCCN>") (codes "</SRCCN>")))
              (n.opt (surrounded (codes "<DESCN>") (codes "</DESCN>"))))
            parse_datas)
          input
    ok (input', addressed src dst datas)

  unfoldable pub parse_network_data : Bytes → ParseResult
  parse_network_data input = finish (n.or parse_hello_package parse_addressed_package input)
