-- ===== src/Framing/Examples.antt =====
-- Messages read and written, with the reference combinators.
use intouch2_mqtt.Base.{◌≡◌, refl, arith, none, some, [], ◌∷◌, ◌++◌, codes}
use intouch2_mqtt.Nom.Reference.{reference}
use intouch2_mqtt.Object.Codec.{compose}
use intouch2_mqtt.Object.{Kind, NetworkPackageData}
use intouch2_mqtt.Framing.{
  addressed, hello, parsed, panicked, compose_network_data, parse_network_data,
}
use intouch2_mqtt.Framing.RoundTrip.{IsFramed, inner, parse-compose_addressed, parse-compose_hello}
use intouch2_mqtt.Framing.Written.{IsWritten, parse_network_data-IsWritten}
use intouch2_mqtt.Framing.Outcome.{parse_network_data-truncated}

abbrev key : NetworkPackageData
key = (Kind.key_press, (4, (10, (2, tt))))

key-IsFramed : IsFramed (some (codes "IOS1")) (some (codes "SPA7")) key
unfolding compose
key-IsFramed = record {
  canonical = (refl, (tt, (tt, (tt, tt))));
  src_closed = refl;
  dst_closed = refl;
  datas_closed = refl;
  src_inside = refl;
  dst_inside = refl;
  datas_inside = refl;
}

parse-compose_addressed_example :
    parse_network_data reference
      (compose_network_data (addressed (some (codes "IOS1")) (some (codes "SPA7")) key))
    ≡ parsed (addressed (some (codes "IOS1")) (some (codes "SPA7")) key)
parse-compose_addressed_example =
    parse-compose_addressed reference (some (codes "IOS1")) (some (codes "SPA7")) key key-IsFramed

parse-compose_hello_example :
    parse_network_data reference (compose_network_data (hello (codes "SPA7|Pool")))
    ≡ parsed (hello (codes "SPA7|Pool"))
parse-compose_hello_example = parse-compose_hello reference (codes "SPA7|Pool") refl

parse_network_data-truncated_example :
    parse_network_data reference (
      codes "<PACKT>"
      ++ (inner (some (codes "SPA7")) none (codes "STATP" ++ 1 ∷ 0 ∷ 4 ∷ 9 ∷ [])
          ++ codes "</PACKT>"))
    ≡ panicked
parse_network_data-truncated_example =
    parse_network_data-truncated reference (some (codes "SPA7")) none 1 0 4 (9 ∷ []) (omega arith)
      refl tt refl tt refl refl

key_read :
    parse_network_data reference
      (compose_network_data (addressed (some (codes "IOS1")) (some (codes "SPA7")) key))
    ≡ parsed (addressed (some (codes "IOS1")) (some (codes "SPA7")) key)
key_read =
    parse-compose_addressed reference (some (codes "IOS1")) (some (codes "SPA7")) key key-IsFramed

parse_network_data-IsWritten_example :
    IsWritten reference
      (addressed (some (codes "IOS1")) (some (codes "SPA7")) key)
      (compose_network_data (addressed (some (codes "IOS1")) (some (codes "SPA7")) key))
parse_network_data-IsWritten_example =
    parse_network_data-IsWritten reference
      (compose_network_data (addressed (some (codes "IOS1")) (some (codes "SPA7")) key))
      (addressed (some (codes "IOS1")) (some (codes "SPA7")) key) key_read
