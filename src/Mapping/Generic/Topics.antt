-- ===== src/Mapping/Generic/Topics.antt =====
-- No two values of mappings share a topic.
use intouch2_mqtt.Base.{
  ℕ, zero, suc, ◌+◌, ◌*◌, ◌-◌, ◌/◌, ◌%◌, ◌≤◌, ◌<◌, ◌≡◌, ◌≢◌, ap, sym, ◌∙◌, some, List, [], ◌∷◌,
  Bytes, ltb, get_elem?, All, arith, Bool-cases, inl, inr, eq_of_some,
}
use intouch2_mqtt.Session.Topic.{Topic, state, set, TopicGenerator}
use intouch2_mqtt.Session.Topic.Injective.{
  IsSegment, segment, IsBelowBase, state_below, set_below, topic-injective,
}
use intouch2_mqtt.Mapping.Generic.{
  MqttType, state_type, command_type, value_type, GenericMapping, digits_onto, decimal, Configured,
  publishes, listens, holds, next_topic, configure, add_generic,
}

-- The number that decimal digits stand for, behind a number.
abbrev number_of : ℕ → Bytes → ℕ
number_of n [] = n
number_of n (byte ∷ digits) = number_of (n * 10 + (byte - 48)) digits

number_of-digits_onto :
    (fuel n : ℕ) (digits : Bytes)
    → n < fuel
    → number_of 0 (digits_onto fuel n digits) ≡ number_of n digits
unfolding digits_onto
number_of-digits_onto zero n digits h = absurd (omega arith)
number_of-digits_onto (suc fuel) n digits h = elim (Bool-cases (ltb n 10)) [
  | inl one ↦
      let same : 0 * 10 + ((48 + n) - 48) ≡ n = omega arith in
      rw one (ap (λ k. number_of k digits) same)
  | inr many ↦
      let large : 10 ≤ n = ground arith in
      let same : (n / 10) * 10 + ((48 + n % 10) - 48) ≡ n = omega arith in
      rw many (
        number_of-digits_onto fuel (n / 10) ((48 + n % 10) ∷ digits) (omega arith)
        ∙ ap (λ k. number_of k digits) same)
]

decimal_injective : (n m : ℕ) → decimal n ≡ decimal m → n ≡ m
decimal_injective n m h =
    sym (number_of-digits_onto (suc n) n [] (omega arith))
    ∙ ap (number_of 0) h
    ∙ number_of-digits_onto (suc m) m [] (omega arith)

digits_onto-IsSegment :
    (fuel n : ℕ) (digits : Bytes)
    → n < fuel
    → All (λ b. b ≢ 47) digits
    → IsSegment (digits_onto fuel n digits)
unfolding digits_onto
digits_onto-IsSegment zero n digits h all = absurd (omega arith)
digits_onto-IsSegment (suc fuel) n digits h all = elim (Bool-cases (ltb n 10)) [
  | inl one ↦ rw one (segment (48 + n) digits (λ e. omega arith) all)
  | inr many ↦
      let large : 10 ≤ n = ground arith in
      rw many (
        digits_onto-IsSegment fuel (n / 10) ((48 + n % 10) ∷ digits) (omega arith)
          ((λ e. omega arith), all))
]

-- The topics of the jobs, in the order of the entries.
abbrev pub topics_of : List (Bytes × Configured) → List Bytes
topics_of [] = []
topics_of ((key, publishes t type) ∷ rest) = t ∷ topics_of rest
topics_of ((key, listens t command) ∷ rest) = t ∷ topics_of rest
topics_of ((key, holds value) ∷ rest) = topics_of rest

module _ (g : TopicGenerator) (mapping : GenericMapping) where
  -- A topic is that of its place.
  IsNumbered : ℕ → Bytes → Type 0
  IsNumbered counter t = (role : Topic) × IsBelowBase role × (t ≡ next_topic g mapping counter role)

  IsNumbered-configure :
      (counter i : ℕ) (values : List (Bytes × MqttType)) (t : Bytes)
      → get_elem? (topics_of (configure g mapping counter values)) i ≡ some t
      → IsNumbered (counter + 1 + i) t
  unfolding configure IsNumbered
  IsNumbered-configure counter i [] t h = cc
  IsNumbered-configure counter zero ((key, state_type type) ∷ values) t h =
      let here : counter + 1 ≡ counter + 1 + 0 = omega arith in
      (state, state_below, sym (eq_of_some h) ∙ ap (λ k. next_topic g mapping k state) here)
  IsNumbered-configure counter (suc i) ((key, state_type type) ∷ values) t h =
      let (role, below, e) = IsNumbered-configure (counter + 1) i values t h in
      let next : counter + 1 + 1 + i ≡ counter + 1 + suc i = omega arith in
      (role, below, e ∙ ap (λ k. next_topic g mapping k role) next)
  IsNumbered-configure counter zero ((key, command_type command) ∷ values) t h =
      let here : counter + 1 ≡ counter + 1 + 0 = omega arith in
      (set, set_below, sym (eq_of_some h) ∙ ap (λ k. next_topic g mapping k set) here)
  IsNumbered-configure counter (suc i) ((key, command_type command) ∷ values) t h =
      let (role, below, e) = IsNumbered-configure (counter + 1) i values t h in
      let next : counter + 1 + 1 + i ≡ counter + 1 + suc i = omega arith in
      (role, below, e ∙ ap (λ k. next_topic g mapping k role) next)
  IsNumbered-configure counter i ((key, value_type value) ∷ values) t h =
      IsNumbered-configure counter i values t h

-- If the types and the ids of two mappings are not empty and have no separator: where the jobs
-- that add_generic starts for them share a topic, the mappings have the same type and the same
-- id, and the jobs have the same place in the order of their entries.
pub add_generic-injective :
    (g : TopicGenerator) (mapping mapping' : GenericMapping) (i i' : ℕ) (t : Bytes)
    → IsSegment mapping.mqtt_type
    → IsSegment mapping'.mqtt_type
    → IsSegment mapping.unique_id
    → IsSegment mapping'.unique_id
    → get_elem? (topics_of (add_generic g mapping)) i ≡ some t
    → get_elem? (topics_of (add_generic g mapping')) i' ≡ some t
    → (mapping.mqtt_type ≡ mapping'.mqtt_type) × (mapping.unique_id ≡ mapping'.unique_id) × (i ≡ i')
unfolding IsNumbered
add_generic-injective g mapping mapping' i i' t h h' k k' at at' =
    let (role, below, e) = IsNumbered-configure g mapping 0 i mapping.mqtt_values t at in
    let (role', below', e') = IsNumbered-configure g mapping' 0 i' mapping'.mqtt_values t at' in
    let (types, ids, counters, _) =
      topic-injective g mapping.mqtt_type mapping'.mqtt_type mapping.unique_id mapping'.unique_id
        (decimal (0 + 1 + i)) (decimal (0 + 1 + i')) role role' h h' k k'
        (digits_onto-IsSegment (suc (0 + 1 + i)) (0 + 1 + i) [] (omega arith) tt)
        (digits_onto-IsSegment (suc (0 + 1 + i')) (0 + 1 + i') [] (omega arith) tt) below below'
        (sym e ∙ e') in
    let places : 0 + 1 + i ≡ 0 + 1 + i' = decimal_injective _ _ counters in
    (types, ids, omega arith)
