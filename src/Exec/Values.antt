-- ===== src/Exec/Values.antt =====
-- What Python does with a JSON value: `x.get(k)`, `x[k]`, `for y in x`, `k in x`, `len(x)`. A value
-- of the wrong type ends the step with an exception that the program does not handle.
use scylla_k8s_example.Base.{ℕ, String, List, [], ◌∷◌, Option, none, some, Bool}
use scylla_k8s_example.Base.{◌<>◌, if◌then◌else◌, string_eq, any, length}
use scylla_k8s_example.Base.Text.{has_text}
use scylla_k8s_example.Json.{Json, null, str, arr, obj, nil, end, to_list, field_names}
use scylla_k8s_example.Json.{find_field, truthy, is_text}
use scylla_k8s_example.Exec.{Event, Exec, pure, raise, crash, maybe}
use scylla_k8s_example.Exec.Emits.{Emits, Emits-pure, Emits-raise, Emits-maybe}
use scylla_k8s_example.Exec.Static.{Static, Static-pure, Static-raise, Static-maybe}
use Prim.Native.String.{count}

-- `x.get(k, v)`
unfoldable pub get_or : Json → String → Json → Exec Json
get_or (obj fs) k v = maybe (find_field k fs) (pure v) (λ x. pure x)
get_or x k v = raise (crash "AttributeError: no attribute 'get'")

-- `x.get(k)`
unfoldable pub get_key : Json → String → Exec Json
unfolding get_or
get_key x k = get_or x k null

-- `x[k]`
unfoldable pub index : Json → String → Exec Json
index (obj fs) k = maybe (find_field k fs) (raise (crash ("KeyError: " <> k))) (λ x. pure x)
index x k = raise (crash "TypeError: not subscriptable by a text")

letters : String → List Json
letters String.[] = []
letters (String.◌∷◌ c s) = str (String.◌∷◌ c "") ∷ letters s

-- `for y in x`
unfoldable pub iterate : Json → Exec (List Json)
unfolding letters
iterate (arr xs) = pure (to_list xs)
iterate (obj fs) = pure (field_names fs)
iterate (str s) = pure (letters s)
iterate x = raise (crash "TypeError: not iterable")

-- `s in x`, for a text `s`
unfoldable pub is_in : String → Json → Exec Bool
is_in s (arr xs) = pure (any (λ x. is_text x s) (to_list xs))
is_in s (obj fs) = pure (any (λ x. is_text x s) (field_names fs))
is_in s (str t) = pure (has_text s t)
is_in s x = raise (crash "TypeError: not a container")

-- `len(x)`
unfoldable pub size : Json → Exec ℕ
size (arr xs) = pure (length (to_list xs))
size (obj fs) = pure (length (field_names fs))
size (str s) = pure (count s)
size x = raise (crash "TypeError: no len()")

-- `x or []` and `x or {}`
abbrev pub or_list : Json → Json
or_list x = if truthy x then x else arr nil

abbrev pub or_dict : Json → Json
or_dict x = if truthy x then x else obj end

-- A key of a dict: a text, a value that no text equals, or an exception if it cannot be hashed.
unfoldable pub as_key : Json → Exec (Option String)
as_key (str s) = pure (some s)
as_key (arr xs) = raise (crash "TypeError: unhashable type")
as_key (obj fs) = raise (crash "TypeError: unhashable type")
as_key x = pure none

-- A value that is used as an address or a name, which is a text.
unfoldable pub as_text : Json → Exec String
as_text (str s) = pure s
as_text x = raise (crash "TypeError: not a text")

module _ {Q : Event → Type 0} where
  pub Emits-get_or : (x : Json) (k : String) (v : Json) → Emits Q (get_or x k v)
  unfolding get_or
  Emits-get_or (obj fs) k v = Emits-maybe (find_field k fs) (Emits-pure v) (λ x. Emits-pure x)
  Emits-get_or x k v = Emits-raise _

  pub Emits-get_key : (x : Json) (k : String) → Emits Q (get_key x k)
  unfolding get_key
  Emits-get_key x k = Emits-get_or x k null

  pub Emits-index : (x : Json) (k : String) → Emits Q (index x k)
  unfolding index
  Emits-index (obj fs) k = Emits-maybe (find_field k fs) (Emits-raise _) (λ x. Emits-pure x)
  Emits-index x k = Emits-raise _

  pub Emits-iterate : (x : Json) → Emits Q (iterate x)
  unfolding iterate
  Emits-iterate (arr xs) = Emits-pure _
  Emits-iterate (obj fs) = Emits-pure _
  Emits-iterate (str s) = Emits-pure _
  Emits-iterate x = Emits-raise _

  pub Emits-is_in : (s : String) (x : Json) → Emits Q (is_in s x)
  unfolding is_in
  Emits-is_in s (arr xs) = Emits-pure _
  Emits-is_in s (obj fs) = Emits-pure _
  Emits-is_in s (str t) = Emits-pure _
  Emits-is_in s x = Emits-raise _

  pub Emits-size : (x : Json) → Emits Q (size x)
  unfolding size
  Emits-size (arr xs) = Emits-pure _
  Emits-size (obj fs) = Emits-pure _
  Emits-size (str s) = Emits-pure _
  Emits-size x = Emits-raise _

  pub Emits-as_key : (x : Json) → Emits Q (as_key x)
  unfolding as_key
  Emits-as_key (str s) = Emits-pure _
  Emits-as_key (arr xs) = Emits-raise _
  Emits-as_key (obj fs) = Emits-raise _
  Emits-as_key x = Emits-pure _

  pub Emits-as_text : (x : Json) → Emits Q (as_text x)
  unfolding as_text
  Emits-as_text (str s) = Emits-pure _
  Emits-as_text x = Emits-raise _

pub ruleset values_rules = (
  Emits-get_or, Emits-get_key, Emits-index, Emits-iterate, Emits-is_in, Emits-size, Emits-as_key,
  Emits-as_text,
)

pub Static-get_or : (x : Json) (k : String) (v : Json) → Static (get_or x k v)
unfolding get_or
Static-get_or (obj fs) k v = Static-maybe (find_field k fs) (Static-pure v) (λ x. Static-pure x)
Static-get_or x k v = Static-raise _

pub Static-get_key : (x : Json) (k : String) → Static (get_key x k)
unfolding get_key
Static-get_key x k = Static-get_or x k null

pub Static-index : (x : Json) (k : String) → Static (index x k)
unfolding index
Static-index (obj fs) k = Static-maybe (find_field k fs) (Static-raise _) (λ x. Static-pure x)
Static-index x k = Static-raise _

pub Static-iterate : (x : Json) → Static (iterate x)
unfolding iterate
Static-iterate (arr xs) = Static-pure _
Static-iterate (obj fs) = Static-pure _
Static-iterate (str s) = Static-pure _
Static-iterate x = Static-raise _

pub Static-as_key : (x : Json) → Static (as_key x)
unfolding as_key
Static-as_key (str s) = Static-pure _
Static-as_key (arr xs) = Static-raise _
Static-as_key (obj fs) = Static-raise _
Static-as_key x = Static-pure _
