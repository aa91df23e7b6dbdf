-- ===== src/Program/Dumped.antt =====
-- What the job of intouch2-mqtt/src/main.rs that dumps packages publishes.
use intouch2_mqtt.Base.{
  ℕ, zero, suc, ◌-◌, ◌≤◌, ◌<◌, ◌≡◌, ◌≢◌, refl, ap, sym, ◌∙◌, Bool, true, false, ◌||◌, List, [], ◌∷◌,
  ◌++◌, ◌==◌, ==_iff, ==_eq, le_or_lt, if◌then◌else◌, length, take, length-take, min, arith, All,
  Bool-cases, inl, inr, ◌⊎◌,
}
use intouch2_mqtt.Object.{NetworkPackageData}
use intouch2_mqtt.Program.{
  Sending, sent, not_serialised, not_sent, goes_on, ends, Dump, publish_package, is_keep_alive,
  contains, make_room, dump_one, dump,
}

module _ (package_eq : NetworkPackageData → NetworkPackageData → Bool)
    (package_eq_refl : (x : NetworkPackageData) → package_eq x x ≡ true) where
  -- No package is published again while it is among the last that were published, as many as the
  -- queue holds, and none is of the keep-alive.
  abbrev pub IsSpaced : ℕ → List NetworkPackageData → Type 0
  IsSpaced capacity [] = Unit
  IsSpaced capacity (x ∷ published) =
      (contains package_eq x (take capacity published) ≡ false)
      × (is_keep_alive x ≡ false)
      × IsSpaced capacity published

  -- The queue holds the last packages that were published.
  abbrev IsQueue : ℕ → List NetworkPackageData × List NetworkPackageData → Type 0
  IsQueue capacity (recent, published) =
      (recent ≡ take capacity published) × IsSpaced capacity published

  take_all : (n : ℕ) (xs : List NetworkPackageData) → length xs ≤ n → take n xs ≡ xs
  take_all zero [] h = refl
  take_all zero (x ∷ xs) h = absurd (omega arith)
  take_all (suc n) [] h = refl
  take_all (suc n) (x ∷ xs) h = ap (◌∷◌ x) (take_all n xs (omega arith))

  take-take : (n m : ℕ) (xs : List NetworkPackageData) → m ≤ n → take m (take n xs) ≡ take m xs
  take-take n zero xs h = refl
  take-take zero (suc m) xs h = absurd (omega arith)
  take-take (suc n) (suc m) [] h = refl
  take-take (suc n) (suc m) (x ∷ xs) h = ap (◌∷◌ x) (take-take n m xs (omega arith))

  -- The queue with room for one more holds one less.
  make_room_lem :
      (n : ℕ) (published : List NetworkPackageData)
      → make_room package_eq (suc n) (take (suc n) published) ≡ take n published
  make_room_lem n published = elim (Bool-cases (length (take (suc n) published) == suc n)) [
    | inl full ↦
        let len : length (take (suc n) published) - 1 ≡ n =
          ap (λ k. k - 1) ((==_iff (length (take (suc n) published)) (suc n)).0 full)
          ∙ omega arith in
        rw full (
          ap (λ k. take k (take (suc n) published)) len
          ∙ take-take (suc n) n published (omega arith))
    | inr room ↦
        let few : length published ≤ n = short (length-take (suc n) published) room in
        rw room (take_all (suc n) published (omega arith) ∙ sym (take_all n published few))
  ]
    where
      short :
          length (take (suc n) published) ≡ min (suc n) (length published)
          → (length (take (suc n) published) == suc n) ≡ false
          → length published ≤ n
      short e f = elim (le_or_lt (length published) n) [
        | inl few ↦ few
        | inr many ↦
            let full : length (take (suc n) published) ≡ suc n = e ∙ omega arith in
            let t : true ≡ false = sym (==_eq _ _ full) ∙ f in absurd (true_ne t)
      ]
        where
          true_ne : true ≢ false
          true_ne h = cc

  -- The queue and what was published, behind a package that is sent if it is published.
  abbrev publish_one :
      ℕ
      → List NetworkPackageData × List NetworkPackageData
      → NetworkPackageData
      → List NetworkPackageData × List NetworkPackageData
  publish_one capacity (recent, published) x =
      if is_keep_alive x || contains package_eq x recent
      then (recent, published)
      else (x ∷ make_room package_eq capacity recent, x ∷ published)

  publish_one-IsQueue :
      (n : ℕ) (recent published : List NetworkPackageData) (x : NetworkPackageData)
      → IsQueue (suc n) (recent, published)
      → IsQueue (suc n) (publish_one (suc n) (recent, published) x)
  publish_one-IsQueue n recent published x (e, spaced) =
      step (is_keep_alive x) (contains package_eq x recent) refl refl
    where
      step :
          (b c : Bool)
          → is_keep_alive x ≡ b
          → contains package_eq x recent ≡ c
          → IsQueue (suc n) (
              if b || c
              then (recent, published)
              else (x ∷ make_room package_eq (suc n) recent, x ∷ published))
      step true c h k = (e, spaced)
      step false true h k = (e, spaced)
      step false false h k = (
        ap (◌∷◌ x) (ap (make_room package_eq (suc n)) e ∙ make_room_lem n published),
        (ap (contains package_eq x) (sym e) ∙ k, h, spaced),
      )

  -- A package that is published stays so.
  contains-more :
      (x y : NetworkPackageData) (published : List NetworkPackageData)
      → contains package_eq x published ≡ true
      → contains package_eq x (y ∷ published) ≡ true
  contains-more x y published h = more (package_eq x y)
    where
      more : (b : Bool) → (b || contains package_eq x published) ≡ true
      more true = refl
      more false = h

  contains-take :
      (n : ℕ) (x : NetworkPackageData) (published : List NetworkPackageData)
      → contains package_eq x (take n published) ≡ true
      → contains package_eq x published ≡ true
  contains-take zero x published h = cc
  contains-take (suc n) x [] h = cc
  contains-take (suc n) x (y ∷ published) h = taken (package_eq x y) h (contains-take n x published)
    where
      taken :
          (b : Bool)
          → (b || contains package_eq x (take n published)) ≡ true
          → (contains package_eq x (take n published) ≡ true
              → contains package_eq x published ≡ true)
          → (b || contains package_eq x published) ≡ true
      taken true h k = refl
      taken false h k = k h

  abbrev published_of : List NetworkPackageData × List NetworkPackageData → List NetworkPackageData
  published_of state = state.1

  -- A package was of the keep-alive, or is published.
  abbrev pub IsHandled : List NetworkPackageData → NetworkPackageData → Type 0
  IsHandled published x = (is_keep_alive x ≡ true) ⊎ (contains package_eq x published ≡ true)

  IsHandled-now :
      (n : ℕ) (recent published : List NetworkPackageData) (x : NetworkPackageData)
      → recent ≡ take n published
      → IsHandled (publish_one n (recent, published) x).1 x
  IsHandled-now n recent published x e =
      step (is_keep_alive x) (contains package_eq x recent) refl refl
    where
      step :
          (b c : Bool)
          → is_keep_alive x ≡ b
          → contains package_eq x recent ≡ c
          → (is_keep_alive x ≡ true)
            ⊎ (contains package_eq x (
                  published_of (
                    if b || c
                    then (recent, published)
                    else (x ∷ make_room package_eq n recent, x ∷ published)))
                ≡ true)
      step true c h k = inl h
      step false true h k =
          inr (contains-take n x published (ap (contains package_eq x) (sym e) ∙ k))
      step false false h k = inr (rw (package_eq_refl x) refl)

  contains-publish_one :
      (n : ℕ) (recent published : List NetworkPackageData) (x y : NetworkPackageData)
      → contains package_eq y published ≡ true
      → contains package_eq y (publish_one n (recent, published) x).1 ≡ true
  contains-publish_one n recent published x y h =
      step (is_keep_alive x || contains package_eq x recent)
    where
      step :
          (b : Bool)
          → contains package_eq y (
              published_of (
                if b
                then (recent, published)
                else (x ∷ make_room package_eq n recent, x ∷ published)))
            ≡ true
      step true = h
      step false = contains-more y x published h

  -- A turn of the loop goes on as if the package was sent, or it ends and publishes nothing.
  dump_one_lem :
      (n : ℕ) (recent published : List NetworkPackageData) (x : NetworkPackageData)
      (sending : Sending)
      → (dump_one package_eq n (recent, published) (x, sending)
          ≡ goes_on (publish_one n (recent, published) x))
        ⊎ ((recent' : List NetworkPackageData) × (dump_one package_eq n
                (recent, published)
                (x, sending)
              ≡ ends (recent', published))
            × (sending ≢ sent))
  dump_one_lem n recent published x sending =
      elim (Bool-cases (is_keep_alive x || contains package_eq x recent)) [
        | inl skipped ↦ inl (rw skipped refl)
        | inr new ↦ rw new (publishes sending)
      ]
    where
      publishes :
          (sending : Sending)
          → (publish_package package_eq n (recent, published) x sending
              ≡ goes_on (x ∷ make_room package_eq n recent, x ∷ published))
            ⊎ ((recent' : List NetworkPackageData) × (publish_package package_eq n
                    (recent, published)
                    x
                    sending
                  ≡ ends (recent', published))
                × (sending ≢ sent))
      publishes sent = inl refl
      publishes not_serialised = inr (make_room package_eq n recent, refl, λ e. cc)
      publishes not_sent = inr (x ∷ make_room package_eq n recent, refl, λ e. cc)

  -- Nothing is left, or the first package that is left was not sent.
  abbrev pub IsFailure : List (NetworkPackageData × Sending) → Type 0
  IsFailure [] = Unit {0}
  IsFailure ((x, sending) ∷ left) = sending ≢ sent

  -- What is known of a run of the loop.
  abbrev IsDumped :
      ℕ → List NetworkPackageData → List (NetworkPackageData × Sending) → Dump → Type 0
  IsDumped capacity before packages d =
      (taken : List (NetworkPackageData × Sending)) × (packages ≡ taken ++ d.left)
      × IsFailure d.left
      × IsSpaced capacity d.published
      × All (λ (e : NetworkPackageData × Sending). IsHandled d.published e.0) taken
      × ((y : NetworkPackageData)
          → contains package_eq y before ≡ true
          → contains package_eq y d.published ≡ true)

  IsHandled-later :
      (before after : List NetworkPackageData) (x : NetworkPackageData)
      → (contains package_eq x before ≡ true → contains package_eq x after ≡ true)
      → IsHandled before x
      → IsHandled after x
  IsHandled-later before after x more (inl h) = inl h
  IsHandled-later before after x more (inr h) = inr (more h)

  dump-IsDumped :
      (n : ℕ) (packages : List (NetworkPackageData × Sending))
      (recent published : List NetworkPackageData)
      → IsQueue (suc n) (recent, published)
      → IsDumped (suc n) published packages (dump package_eq (suc n) (recent, published) packages)
  unfolding dump
  dump-IsDumped n [] recent published h = ([], refl, tt, h.1, tt, λ y k. k)
  dump-IsDumped n ((x, sending) ∷ packages) recent published h =
      elim (dump_one_lem (suc n) recent published x sending) [
        | inl on ↦
            let (taken, e, failure, spaced, all, more) =
              dump-IsDumped n packages _ _ (publish_one-IsQueue n recent published x h) in
            let (recent', published') = publish_one (suc n) (recent, published) x in
            let final = (dump package_eq (suc n) (recent', published') packages).published in
            rw on (
              (x, sending) ∷ taken,
              ap (◌∷◌ (x, sending)) e,
              failure,
              spaced,
              (
                IsHandled-later published' final x (more x)
                    (IsHandled-now (suc n) recent published x h.0),
                all,
              ),
              λ y k. more y (contains-publish_one (suc n) recent published x y k),
            )
        | inr (recent', end, failure) ↦ rw end ([], refl, failure, h.1, tt, λ y k. k)
      ]

  -- If equality of packages is reflexive and the queue holds at least one package: no dumped
  -- package is of the keep-alive or equal to one of the last that were dumped, as many as the
  -- queue holds. The packages that arrived are those that were taken and those that are left;
  -- every package that was taken is of the keep-alive or equal to a dumped one, and if packages
  -- are left, the first of them could not be serialised or sent.
  pub dump-IsSpaced :
      (capacity : ℕ) (packages : List (NetworkPackageData × Sending))
      → 0 < capacity
      → (taken : List (NetworkPackageData × Sending)) × (packages
          ≡ taken ++ (dump package_eq capacity ([], []) packages).left)
        × IsFailure (dump package_eq capacity ([], []) packages).left
        × IsSpaced capacity (dump package_eq capacity ([], []) packages).published
        × All
            (λ (e : NetworkPackageData × Sending).
              IsHandled (dump package_eq capacity ([], []) packages).published e.0)
            taken
  dump-IsSpaced zero packages h = absurd (omega arith)
  dump-IsSpaced (suc n) packages h =
      let (taken, e, failure, spaced, all, _) = dump-IsDumped n packages [] [] (refl, tt) in
      (taken, e, failure, spaced, all)
