-- ===== src/Session/Topic/Injective.antt =====
-- Different entities and uses have different topics.
use intouch2_mqtt.Base.{
  ℕ, ◌≡◌, ◌≢◌, refl, ap, sym, ◌∙◌, subst, true, false, [], ◌∷◌, ◌++◌, append_assoc, append-nil,
  Bytes, ==_ne, if◌then◌else◌, All, beq,
}
use native.Mathlib.Decide.{ℕ_discrete}
use intouch2_mqtt.Session.Topic.{
  Topic, state, status, switch, set, no_topic, word, is_absolute, needs_separator, separated, join,
  TopicGenerator, topic,
}

-- A segment of a path: not empty, and without a separator.
pub data IsSegment : Bytes → Type 0 where
  segment :
      (byte : ℕ) (bytes : Bytes) → byte ≢ 47 → All (λ b. b ≢ 47) bytes → IsSegment (byte ∷ bytes)

-- The topics below the base topic.
pub data IsBelowBase : Topic → Type 0 where
  state_below : IsBelowBase state
  status_below : IsBelowBase status
  switch_below : IsBelowBase switch
  set_below : IsBelowBase set
  no_topic_below : IsBelowBase no_topic

abbrev after_name : Topic → Bytes
after_name no_topic = []
after_name t = 47 ∷ word t

-- The use of a topic, from what is after the name.
abbrev topic_after : Bytes → Topic
topic_after bytes =
    if beq bytes (after_name state)
    then state
    else if beq bytes (after_name status)
    then status
    else if beq bytes (after_name switch)
    then switch
    else if beq bytes (after_name set)
    then set
    else no_topic

topic_after_lem : (t : Topic) → IsBelowBase t → topic_after (after_name t) ≡ t
unfolding ℕ_discrete
topic_after_lem _ state_below = refl
topic_after_lem _ status_below = refl
topic_after_lem _ switch_below = refl
topic_after_lem _ set_below = refl
topic_after_lem _ no_topic_below = refl

-- A path that is not absolute and does not end with a separator.
IsRelative : Bytes → Type 0
IsRelative path =
    (is_absolute path ≡ false) × ((base : Bytes) → needs_separator (base ++ path) ≡ true)

segment_needs :
    (byte : ℕ) (bytes : Bytes)
    → byte ≢ 47
    → All (λ b. b ≢ 47) bytes
    → needs_separator (byte ∷ bytes) ≡ true
segment_needs byte [] h all = rw (==_ne byte 47 h) refl
segment_needs byte (next ∷ bytes) h (k, all) = segment_needs next bytes k all

needs_separator-segment : (base s : Bytes) → IsSegment s → needs_separator (base ++ s) ≡ true
needs_separator-segment [] _ (segment byte bytes h all) = segment_needs byte bytes h all
needs_separator-segment (b ∷ []) _ (segment byte bytes h all) = segment_needs byte bytes h all
needs_separator-segment (b ∷ c ∷ base) s h = needs_separator-segment (c ∷ base) s h

segment-IsRelative : (s : Bytes) → IsSegment s → IsRelative s
unfolding IsRelative
segment-IsRelative _ (segment byte bytes h all) =
    (==_ne byte 47 h, λ base. needs_separator-segment base _ (segment byte bytes h all))

-- Two segments.
two-IsRelative : (s c : Bytes) → IsSegment s → IsSegment c → IsRelative (s ++ (47 ∷ c))
unfolding IsRelative
two-IsRelative _ c (segment byte bytes h all) k = (
  ==_ne byte 47 h,
  λ base.
      subst (λ path. needs_separator path ≡ true)
        (append_assoc (base ++ (byte ∷ bytes)) (47 ∷ []) c
          ∙ append_assoc base (byte ∷ bytes) (47 ∷ c))
        (needs_separator-segment ((base ++ (byte ∷ bytes)) ++ (47 ∷ [])) c k),
)

join-relative : (base path : Bytes) → IsRelative path → join base path ≡ separated base ++ path
unfolding IsRelative
join-relative base path (h, k) = rw h refl

separated-relative :
    (base path : Bytes) → IsRelative path → separated (base ++ path) ≡ (base ++ path) ++ (47 ∷ [])
unfolding IsRelative
separated-relative base path (h, k) = rw (k base) refl

join-two :
    (base type name : Bytes)
    → IsRelative type
    → IsRelative name
    → join (join base type) name ≡ ((separated base ++ type) ++ (47 ∷ [])) ++ name
join-two base type name h k =
    rw
      (
        join-relative base type h,
        join-relative (separated base ++ type) name k,
        separated-relative (separated base) type h,
      )
      refl

join-word :
    (base : Bytes) (t : Topic)
    → IsBelowBase t
    → t ≢ no_topic
    → join base (word t) ≡ separated base ++ word t
unfolding ℕ_discrete
join-word base _ state_below h = refl
join-word base _ status_below h = refl
join-word base _ switch_below h = refl
join-word base _ set_below h = refl
join-word base _ no_topic_below h = absurd (h refl)

join-three :
    (base type name : Bytes) (t : Topic)
    → IsRelative type
    → IsRelative name
    → IsBelowBase t
    → t ≢ no_topic
    → join (join (join base type) name) (word t)
      ≡ ((((separated base ++ type) ++ 47 ∷ []) ++ name) ++ 47 ∷ []) ++ word t
join-three base type name t h k b n =
    rw
      (
        join-two base type name h k,
        join-word (((separated base ++ type) ++ 47 ∷ []) ++ name) t b n,
        separated-relative ((separated base ++ type) ++ (47 ∷ [])) name k,
      )
      refl

-- A topic below the base topic, piece by piece.
topic_pieces :
    (g : TopicGenerator) (type name : Bytes) (t : Topic)
    → IsRelative type
    → IsRelative name
    → IsBelowBase t
    → topic g type name t ≡ separated g.base_topic ++ (type ++ (47 ∷ (name ++ after_name t)))
unfolding topic
topic_pieces g type name _ h k state_below =
    join-three g.base_topic type name state h k state_below (λ e. cc) ∙ simp (append_assoc)
topic_pieces g type name _ h k status_below =
    join-three g.base_topic type name status h k status_below (λ e. cc) ∙ simp (append_assoc)
topic_pieces g type name _ h k switch_below =
    join-three g.base_topic type name switch h k switch_below (λ e. cc) ∙ simp (append_assoc)
topic_pieces g type name _ h k set_below =
    join-three g.base_topic type name set h k set_below (λ e. cc) ∙ simp (append_assoc)
topic_pieces g type name _ h k no_topic_below =
    join-two g.base_topic type name h k ∙ simp (append_assoc, append-nil)

-- What may follow a segment: nothing, or a separator.
data IsRest : Bytes → Type 0 where
  ends : IsRest []
  goes_on : (bytes : Bytes) → IsRest (47 ∷ bytes)

split_lem :
    (a b rest rest' : Bytes)
    → All (λ x. x ≢ 47) a
    → All (λ x. x ≢ 47) b
    → IsRest rest
    → IsRest rest'
    → a ++ rest ≡ b ++ rest'
    → (a ≡ b) × (rest ≡ rest')
split_lem [] [] rest rest' p q r r' e = (refl, e)
split_lem (x ∷ a) [] rest _ (p, ps) q r (goes_on bytes) e = absurd (p cc)
split_lem (x ∷ a) [] rest _ p q r ends e = cc
split_lem [] (y ∷ b) _ rest' p (q, qs) (goes_on bytes) r' e = absurd (q cc)
split_lem [] (y ∷ b) _ rest' p q ends r' e = cc
split_lem (x ∷ a) (y ∷ b) rest rest' (p, ps) (q, qs) r r' e =
    let (h, k) = split_lem a b rest rest' ps qs r r' cc in (cc, k)

segment-All : (s : Bytes) → IsSegment s → All (λ x. x ≢ 47) s
segment-All _ (segment byte bytes h all) = (h, all)

after_name-IsRest : (t : Topic) → IsBelowBase t → IsRest (after_name t)
after_name-IsRest _ state_below = goes_on _
after_name-IsRest _ status_below = goes_on _
after_name-IsRest _ switch_below = goes_on _
after_name-IsRest _ set_below = goes_on _
after_name-IsRest _ no_topic_below = ends

cancel_left : (a b c : Bytes) → a ++ b ≡ a ++ c → b ≡ c
cancel_left [] b c h = h
cancel_left (x ∷ a) b c h = cancel_left a b c cc

cons_tail : (x : ℕ) (a b : Bytes) → x ∷ a ≡ x ∷ b → a ≡ b
cons_tail x a b h = cc

-- For types, ids and counters that are not empty and have no separator, and uses other than the
-- configuration: the same topic has the same type, id, counter and use.
pub topic-injective :
    (g : TopicGenerator) (type type' id id' counter counter' : Bytes) (t t' : Topic)
    → IsSegment type
    → IsSegment type'
    → IsSegment id
    → IsSegment id'
    → IsSegment counter
    → IsSegment counter'
    → IsBelowBase t
    → IsBelowBase t'
    → topic g type (id ++ (47 ∷ counter)) t ≡ topic g type' (id' ++ (47 ∷ counter')) t'
    → (type ≡ type') × (id ≡ id') × (counter ≡ counter') × (t ≡ t')
topic-injective g type type' id id' counter counter' t t' h h' k k' c c' b b' e =
    let whole =
      cancel_left (separated g.base_topic) (type ++ (47 ∷ ((id ++ (47 ∷ counter)) ++ after_name t)))
        (type' ++ (47 ∷ ((id' ++ (47 ∷ counter')) ++ after_name t')))
        (sym (topic_pieces g type _ t (segment-IsRelative type h) (two-IsRelative id counter k c) b)
          ∙ e
          ∙ topic_pieces g type' _ t' (segment-IsRelative type' h')
              (two-IsRelative id' counter' k' c') b') in
    let (types, names) =
      split_lem type type' _ _ (segment-All type h) (segment-All type' h') (goes_on _) (goes_on _)
        whole in
    let (ids, counters) =
      split_lem id id' _ _ (segment-All id k) (segment-All id' k') (goes_on _) (goes_on _) (
        sym (append_assoc id (47 ∷ counter) (after_name t))
        ∙ cons_tail 47 _ _ names
        ∙ append_assoc id' (47 ∷ counter') (after_name t')) in
    let (numbers, afters) =
      split_lem counter counter' _ _ (segment-All counter c) (segment-All counter' c')
        (after_name-IsRest t b) (after_name-IsRest t' b') (cons_tail 47 _ _ counters) in
    (types, ids, numbers, sym (topic_after_lem t b) ∙ ap topic_after afters ∙ topic_after_lem t' b')
