-- ===== src/Session/Topic.antt =====
-- `Topic` and `TopicGenerator` of intouch2-mqtt/src/mqtt_session.rs, with `Path::join` of the
-- standard library on UTF-8 paths.
use intouch2_mqtt.Base.{
  ℕ, ◌≡◌, Bool, true, false, ◌||◌, List, [], ◌∷◌, ◌++◌, Bytes, codes, ◌==◌, if◌then◌else◌,
}
pub mod Injective

pub data Topic : Type 0 where
  state : Topic
  status : Topic
  switch : Topic
  config : Topic
  set : Topic
  no_topic : Topic

-- `IntoStaticStr`, in lower case.
abbrev pub word : Topic → Bytes
word state = codes "state"
word status = codes "status"
word switch = codes "switch"
word config = codes "config"
word set = codes "set"
word no_topic = codes "none"

abbrev pub is_absolute : Bytes → Bool
is_absolute [] = false
is_absolute (byte ∷ path) = byte == 47

-- A separator is needed after a path that is not empty and does not end with one.
abbrev pub needs_separator : Bytes → Bool
needs_separator [] = false
needs_separator (byte ∷ []) = if byte == 47 then false else true
needs_separator (byte ∷ next ∷ path) = needs_separator (next ∷ path)

abbrev pub separated : Bytes → Bytes
separated base = if needs_separator base then base ++ 47 ∷ [] else base

-- `Path::join`: an absolute path replaces the one before.
abbrev pub join : Bytes → Bytes → Bytes
join base path = if is_absolute path then path else separated base ++ path

pub record TopicGenerator : Type 0 where
  pub discovery_topic : Bytes
  pub base_topic : Bytes

unfoldable pub topic : TopicGenerator → Bytes → Bytes → Topic → Bytes
topic g type name config = join (join (join g.discovery_topic type) name) (word config)
topic g type name no_topic = join (join g.base_topic type) name
topic g type name state = join (join (join g.base_topic type) name) (word state)
topic g type name status = join (join (join g.base_topic type) name) (word status)
topic g type name switch = join (join (join g.base_topic type) name) (word switch)
topic g type name set = join (join (join g.base_topic type) name) (word set)
