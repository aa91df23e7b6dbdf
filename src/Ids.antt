-- ===== src/Ids.antt =====
-- `generate_uuid` of intouch2/src/lib.rs, the client's id, with the random numbers as an argument, and
-- `unspecified_source_for_taget` of intouch2-mqtt/src/lib.rs.
use intouch2_mqtt.Base.{
  ℕ, ◌+◌, ◌<◌, ◌≡◌, ◌≢◌, refl, List, [], ◌∷◌, ◌++◌, map, Bytes, codes, ltb, if◌then◌else◌, take,
  drop, All, arith, Bool-cases, inl, inr, ==_ne, ltb→lt, zero, suc, sym,
}
use intouch2_mqtt.Nom.{Nom}
use intouch2_mqtt.Framing.{hello, parsed, compose_network_data, parse_network_data}
use intouch2_mqtt.Framing.RoundTrip.{Absent, parse-compose_hello}

-- `characters[rng.gen_range(0..16)]`
abbrev pub character : ℕ → ℕ
character n = if ltb n 10 then 48 + n else 87 + n

abbrev pub part : ℕ → ℕ → Bytes → Bytes
part start len hexed = take len (drop start hexed)

-- `generate_uuid`, with the 32 random numbers.
unfoldable pub generate_uuid : List ℕ → Bytes
generate_uuid randoms =
    let hexed = map character randoms in
    codes "IOS"
    ++ (part 0 8 hexed
        ++ (codes "-"
            ++ (part 8 4 hexed
                ++ (codes "-"
                    ++ (part 12 4 hexed
                        ++ (codes "-" ++ (part 16 8 hexed ++ (codes "-" ++ part 24 8 hexed))))))))

-- Without the flow and the scope of IPv6, which stay as they are.
pub data SocketAddr : Type 0 where
  v4 v6 : (ip port : ℕ) → SocketAddr

-- An address from which the target can be reached.
abbrev pub unspecified_source_for_taget : SocketAddr → SocketAddr
unspecified_source_for_taget (v4 ip port) = v4 0 0
unspecified_source_for_taget (v6 ip port) = v6 0 0

-- No mark begins in such bytes.
NoMark : Bytes → Type 0
NoMark = All (λ b. b ≢ 60)

character-NoMark : (n : ℕ) → n < 16 → character n ≢ 60
character-NoMark n h = elim (Bool-cases (ltb n 10)) [
  | inl small ↦ rw small (λ e. absurd (too_small (ltb→lt n 10 small) e))
  | inr large ↦ rw large (λ e. omega arith)
]
  where
    too_small : n < 10 → 48 + n ≢ 60
    too_small l e = omega arith

map-NoMark : (ns : List ℕ) → All (λ n. n < 16) ns → NoMark (map character ns)
unfolding NoMark
map-NoMark [] all = tt
map-NoMark (n ∷ ns) (h, all) = (character-NoMark n h, map-NoMark ns all)

append-NoMark : (xs ys : Bytes) → NoMark xs → NoMark ys → NoMark (xs ++ ys)
unfolding NoMark
append-NoMark [] ys h k = k
append-NoMark (x ∷ xs) ys (h, hs) k = (h, append-NoMark xs ys hs k)

take-NoMark : (n : ℕ) (xs : Bytes) → NoMark xs → NoMark (take n xs)
unfolding NoMark
take-NoMark zero xs h = tt
take-NoMark (suc n) [] h = tt
take-NoMark (suc n) (x ∷ xs) (h, hs) = (h, take-NoMark n xs hs)

drop-NoMark : (n : ℕ) (xs : Bytes) → NoMark xs → NoMark (drop n xs)
unfolding NoMark
drop-NoMark zero xs h = h
drop-NoMark (suc n) [] h = tt
drop-NoMark (suc n) (x ∷ xs) (h, hs) = drop-NoMark n xs hs

part-NoMark : (start len : ℕ) (xs : Bytes) → NoMark xs → NoMark (part start len xs)
part-NoMark start len xs h = take-NoMark len (drop start xs) (drop-NoMark start xs h)

dash-NoMark : (xs : Bytes) → NoMark xs → NoMark (codes "-" ++ xs)
unfolding NoMark
dash-NoMark xs h = (omega arith, h)

generate_uuid-NoMark :
    (randoms : List ℕ) → All (λ n. n < 16) randoms → NoMark (generate_uuid randoms)
unfolding generate_uuid NoMark
generate_uuid-NoMark randoms all =
    let h : NoMark (map character randoms) = map-NoMark randoms all in
    append-NoMark (codes "IOS") _ ios (
      append-NoMark _ _ (part-NoMark 0 8 _ h) (
        dash-NoMark _ (
          append-NoMark _ _ (part-NoMark 8 4 _ h) (
            dash-NoMark _ (
              append-NoMark _ _ (part-NoMark 12 4 _ h) (
                dash-NoMark _ (
                  append-NoMark _ _ (part-NoMark 16 8 _ h)
                    (dash-NoMark _ (part-NoMark 24 8 _ h)))))))))
  where
    ios : All (λ b. b ≢ 60) (codes "IOS")
    ios = (omega arith, (omega arith, (omega arith, tt)))

absent_lem : (mark xs : Bytes) → NoMark xs → Absent (60 ∷ mark) xs
unfolding NoMark
absent_lem mark [] h = refl
absent_lem mark (x ∷ xs) (h, hs) = rw (==_ne 60 x (λ e. h (sym e)), absent_lem mark xs hs) refl

-- The greeting with a new client's id is read back as that id.
pub generate_uuid-hello :
    (n : Nom) (randoms : List ℕ)
    → All (λ k. k < 16) randoms
    → parse_network_data n (compose_network_data (hello (generate_uuid randoms)))
      ≡ parsed (hello (generate_uuid randoms))
generate_uuid-hello n randoms all =
    parse-compose_hello n (generate_uuid randoms)
      (absent_lem (codes "/HELLO>") (generate_uuid randoms) (generate_uuid-NoMark randoms all))
