-- ===== src/Json.antt =====
-- JSON values, as `resp.json()` of sample_app/convert_to_tablets.py hands them to the program.
-- Numbers are whole: the program computes with no number of an answer, it prints some of them.
use scylla_k8s_example.Base.{suc, Bool, true, false, not, ◌&&◌, String, ◌<>◌}
use scylla_k8s_example.Base.{List, [], ◌∷◌, Option, none, some, nat_eq, string_eq, ◌==◌}
use scylla_k8s_example.Base.{if◌then◌else◌}
use scylla_k8s_example.Base.Text.{ℤ, pos, negsuc, show_nat}

mutual
  pub data Json : Type 0 where
    null : Json
    bool : Bool → Json
    num : ℤ → Json
    str : String → Json
    arr : Items → Json
    obj : Fields → Json

  pub data Items : Type 0 where
    nil : Items
    cons : Json → Items → Items

  pub data Fields : Type 0 where
    end : Fields
    field : String → Json → Fields → Fields

abbrev pub to_list : Items → List Json
to_list nil = []
to_list (cons x xs) = x ∷ to_list xs

abbrev pub field_names : Fields → List Json
field_names end = []
field_names (field k v fs) = str k ∷ field_names fs

unfoldable pub find_field : String → Fields → Option Json
find_field k end = none
find_field k (field j v fs) = if j == k then some v else find_field k fs

-- `bool(x)`
unfoldable pub truthy : Json → Bool
truthy null = false
truthy (bool b) = b
truthy (num (pos n)) = not (n == 0)
truthy (num (negsuc n)) = true
truthy (str s) = not (s == "")
truthy (arr nil) = false
truthy (arr (cons x xs)) = true
truthy (obj end) = false
truthy (obj (field k v fs)) = true

-- `x == s`, for a text `s`
abbrev pub is_text : Json → String → Bool
is_text (str t) s = t == s
is_text _ s = false

show_int : ℤ → String
show_int (pos n) = show_nat n
show_int (negsuc n) = "-" <> show_nat (suc n)

-- `repr(x)` of the parts of a list or dict. Quotes and escapes inside a text are left as they are.
mutual
  repr : Json → String
  repr null = "None"
  repr (bool true) = "True"
  repr (bool false) = "False"
  repr (num n) = show_int n
  repr (str s) = "'" <> s <> "'"
  repr (arr xs) = "[" <> repr_items xs <> "]"
  repr (obj fs) = "{" <> repr_fields fs <> "}"

  repr_items : Items → String
  repr_items nil = ""
  repr_items (cons x nil) = repr x
  repr_items (cons x (cons y xs)) = repr x <> ", " <> repr_items (cons y xs)

  repr_fields : Fields → String
  repr_fields end = ""
  repr_fields (field k v end) = "'" <> k <> "': " <> repr v
  repr_fields (field k v (field j w fs)) =
      "'" <> k <> "': " <> repr v <> ", " <> repr_fields (field j w fs)

-- `f"{x}"`
unfoldable pub show : Json → String
unfolding repr show_int show_nat
show (str s) = s
show null = "None"
show x = repr x

int_beq : ℤ → ℤ → Bool
int_beq (pos a) (pos b) = a == b
int_beq (negsuc a) (negsuc b) = a == b
int_beq _ _ = false

bool_beq : Bool → Bool → Bool
bool_beq true b = b
bool_beq false b = not b

-- `x == y`. Two dicts are compared field by field, in order.
mutual
  json_beq : Json → Json → Bool
  json_beq null null = true
  json_beq (bool a) (bool b) = bool_beq a b
  json_beq (num a) (num b) = int_beq a b
  json_beq (str s) (str t) = s == t
  json_beq (arr xs) (arr ys) = items_beq xs ys
  json_beq (obj fs) (obj gs) = fields_beq fs gs
  json_beq _ _ = false

  items_beq : Items → Items → Bool
  items_beq nil nil = true
  items_beq (cons x xs) (cons y ys) = json_beq x y && items_beq xs ys
  items_beq _ _ = false

  fields_beq : Fields → Fields → Bool
  fields_beq end end = true
  fields_beq (field j v fs) (field k w gs) = j == k && (json_beq v w && fields_beq fs gs)
  fields_beq _ _ = false

unfoldable pub equal : Json → Json → Bool
unfolding json_beq int_beq bool_beq
equal x y = json_beq x y
