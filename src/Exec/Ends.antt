-- ===== src/Exec/Ends.antt =====
-- The end of looking into a JSON value.
use scylla_k8s_example.Base.{String}
use scylla_k8s_example.Json.{Json, arr, obj, str, null, find_field}
use scylla_k8s_example.Exec.{Env}
use scylla_k8s_example.Exec.Halts.{Halts, Halts-pure, Halts-raise, Halts-maybe}
use scylla_k8s_example.Exec.Values.{get_or, get_key, index, iterate, is_in, size, as_key, as_text}

module _ {e : Env} where
  pub Halts-get_or : (x : Json) (k : String) (v : Json) → Halts e (get_or x k v)
  unfolding get_or
  Halts-get_or (obj fs) k v = Halts-maybe (find_field k fs) (Halts-pure v) (λ x. Halts-pure x)
  Halts-get_or x k v = Halts-raise _

  pub Halts-get_key : (x : Json) (k : String) → Halts e (get_key x k)
  unfolding get_key
  Halts-get_key x k = Halts-get_or x k null

  pub Halts-index : (x : Json) (k : String) → Halts e (index x k)
  unfolding index
  Halts-index (obj fs) k = Halts-maybe (find_field k fs) (Halts-raise _) (λ x. Halts-pure x)
  Halts-index x k = Halts-raise _

  pub Halts-iterate : (x : Json) → Halts e (iterate x)
  unfolding iterate
  Halts-iterate (arr xs) = Halts-pure _
  Halts-iterate (obj fs) = Halts-pure _
  Halts-iterate (str s) = Halts-pure _
  Halts-iterate x = Halts-raise _

  pub Halts-as_key : (x : Json) → Halts e (as_key x)
  unfolding as_key
  Halts-as_key (str s) = Halts-pure _
  Halts-as_key (arr xs) = Halts-raise _
  Halts-as_key (obj fs) = Halts-raise _
  Halts-as_key x = Halts-pure _

  pub Halts-is_in : (s : String) (x : Json) → Halts e (is_in s x)
  unfolding is_in
  Halts-is_in s (arr xs) = Halts-pure _
  Halts-is_in s (obj fs) = Halts-pure _
  Halts-is_in s (str t) = Halts-pure _
  Halts-is_in s x = Halts-raise _

  pub Halts-size : (x : Json) → Halts e (size x)
  unfolding size
  Halts-size (arr xs) = Halts-pure _
  Halts-size (obj fs) = Halts-pure _
  Halts-size (str s) = Halts-pure _
  Halts-size x = Halts-raise _

  pub Halts-as_text : (x : Json) → Halts e (as_text x)
  unfolding as_text
  Halts-as_text (str s) = Halts-pure _
  Halts-as_text x = Halts-raise _

pub ruleset value_ends = (
  Halts-get_or, Halts-get_key, Halts-index, Halts-iterate, Halts-is_in, Halts-size, Halts-as_key,
  Halts-as_text,
)
