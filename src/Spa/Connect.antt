-- ===== src/Spa/Connect.antt =====
-- The handshake of `SpaConnection::new` of intouch2-mqtt/src/spa.rs.
use intouch2_mqtt.Base.{
  ℕ, suc, ◌+◌, ◌≡◌, ◌≢◌, refl, true, false, Option, some, List, [], ◌∷◌, ◌++◌, Bytes, codes, arith,
  leb, ==_ne, length, length-append, drop, take-append, All, map,
}
use intouch2_mqtt.Outcome.{returns, panics}
use intouch2_mqtt.Object.{Payload, format_of, get_version, version}
use intouch2_mqtt.Framing.{NetworkPackage, addressed, hello}
use intouch2_mqtt.Gecko.{new}
use intouch2_mqtt.Spa.{position, split_name, wait_version, connect, connected}

-- No byte is `|`.
abbrev pub NoBar : Bytes → Type 0
NoBar xs = All (λ x. x ≢ 124) xs

position-bar : (id name : Bytes) → NoBar id → position (id ++ 124 ∷ name) ≡ length id
position-bar [] name h = refl
position-bar (x ∷ id) name (h, k) = rw (==_ne x 124 h, position-bar id name k) refl

position-none : (xs : Bytes) → NoBar xs → position xs ≡ length xs
position-none [] h = refl
position-none (x ∷ xs) (h, k) = rw (==_ne x 124 h, position-none xs k) refl

drop-after : (id name : Bytes) → drop (length id + 1) (id ++ 124 ∷ name) ≡ name
drop-after [] name = refl
drop-after (x ∷ id) name =
    let e : suc (length id) + 1 ≡ suc (length id + 1) = omega arith in rw e (drop-after id name)

-- The name of a spa is what follows the first bar.
pub split_name-bar :
    (id name : Bytes) → NoBar id → split_name (id ++ 124 ∷ name) ≡ returns (id, name)
unfolding split_name
split_name-bar id name h =
    let fits : leb (length id + 1) (length (id ++ 124 ∷ name)) ≡ true =
      let e = length-append id (124 ∷ name) in ground arith in
    rw (position-bar id name h, fits, drop-after id name, take-append id (124 ∷ name)) refl

pub split_name-panics : (xs : Bytes) → NoBar xs → split_name xs ≡ panics
unfolding split_name
split_name-panics xs h =
    let long : leb (length xs + 1) (length xs) ≡ false = ground arith in
    rw (position-none xs h, long) refl

-- An answer to the greeting that holds no bar makes the connection panic, whatever follows.
pub connect-NoBar :
    (memory_size : ℕ) (src receiver : Bytes) (rx : List NetworkPackage)
    → NoBar receiver
    → connect memory_size src (hello receiver ∷ rx) ≡ panics
unfolding connect
connect-NoBar memory_size src receiver rx h = rw (split_name-panics receiver h) refl

wait-hellos :
    (memory_size : ℕ) (src dst name : Bytes) (hellos : List Bytes) (rx : List NetworkPackage)
    → wait_version memory_size src dst name (map hello hellos ++ rx)
      ≡ wait_version memory_size src dst name rx
unfolding wait_version
wait-hellos memory_size src dst name [] rx = refl
wait-hellos memory_size src dst name (x ∷ hellos) rx =
    wait-hellos memory_size src dst name hellos rx

-- If the spa answers the greeting with an id without a bar, a bar and a name, then any number of
-- greetings, and then its version, the client connects to that id under that name, having sent
-- its two greetings and the request for the version, and with the next sequence number 1.
pub connect-version :
    (memory_size : ℕ) (src id name : Bytes) (hellos : List Bytes) (rx : List NetworkPackage)
    → (from to : Option Bytes) (v : Payload (format_of version)) → NoBar id
    → connect memory_size src
        (hello (id ++ 124 ∷ name) ∷ (map hello hellos ++ addressed from to (version, v) ∷ rx))
      ≡ returns (
        hello (codes "1") ∷ hello src ∷ addressed (some src) (some id) (get_version, (0, tt)) ∷ [],
        connected (record {
          src = src;
          dst = id;
          name = name;
          seq = 1;
          spa_version = v;
          state = new memory_size;
        }),
      )
unfolding connect wait_version
connect-version memory_size src id name hellos rx from to v h =
    rw
      (
        split_name-bar id name h,
        wait-hellos memory_size src id name hellos (addressed from to (version, v) ∷ rx),
      )
      refl
