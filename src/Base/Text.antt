-- ===== src/Base/Text.antt =====
-- The methods of Python's `str` that the program calls, on native texts.
mod Number
unfoldable pub use Number.*
use Prim.Native.Char.{Char, code}
use Prim.Native.String.{count}
use scylla_k8s_example.Base.{ℕ, zero, suc, ◌+◌, ◌-◌, ◌≡◌, refl, Bool, true, false, not, ◌&&◌, ◌||◌}
use scylla_k8s_example.Base.{String, ◌<>◌, List, [], ◌∷◌, Option, none, some, arith}
use scylla_k8s_example.Base.{nat_eq, string_eq, ◌==◌, leb, if◌then◌else◌, contains}

-- The code points that `str.isspace` accepts.
unfoldable pub is_space : ℕ → Bool
is_space c =
    (leb 9 c && leb c 13)
    || (leb 28 c && leb c 32)
    || contains c (133 ∷ 160 ∷ 5760 ∷ 8232 ∷ 8233 ∷ 8239 ∷ 8287 ∷ 12288 ∷ [])
    || (leb 8192 c && leb c 8202)

module _ (drops : ℕ → Bool) where
  unfoldable pub strip_left : String → String
  strip_left String.[] = ""
  strip_left (String.◌∷◌ c s) =
      let rest = strip_left s in if drops (code c) then rest else String.◌∷◌ c s

  unfoldable pub strip_right : String → String
  strip_right String.[] = ""
  strip_right (String.◌∷◌ c s) =
      let rest = strip_right s in if drops (code c) && rest == "" then "" else String.◌∷◌ c rest

  -- `s.strip(chars)`
  unfoldable pub strip_by : String → String
  unfolding strip_left strip_right
  strip_by s = strip_left (strip_right s)

-- `s.strip()`
unfoldable pub strip : String → String
unfolding strip_by is_space
strip = strip_by is_space

-- The first piece and the others.
split_cons : ℕ → String → String × List String
split_cons sep String.[] = ("", [])
split_cons sep (String.◌∷◌ c s) =
    let (piece, pieces) = split_cons sep s in
    if code c == sep then ("", piece ∷ pieces) else (String.◌∷◌ c piece, pieces)

-- `s.split(sep)`, for a separator of one character.
unfoldable pub split : ℕ → String → List String
unfolding split_cons
split sep s = let (piece, pieces) = split_cons sep s in piece ∷ pieces

-- The word that the text begins with, which may be empty, and the words after it.
words_cons : (ℕ → Bool) → String → String × List String
words_cons gap String.[] = ("", [])
words_cons gap (String.◌∷◌ c s) =
    let (word, rest) = words_cons gap s in
    if gap (code c)
    then ("", if word == "" then rest else word ∷ rest)
    else (String.◌∷◌ c word, rest)

-- `s.replace(",", " ").split()`
unfoldable pub words : String → List String
unfolding words_cons is_space
words s =
    let (word, rest) = words_cons (λ c. c == b',' || is_space c) s in
    if word == "" then rest else word ∷ rest

-- The part of the text before the first separator: `s.split(sep)[0]`.
unfoldable pub split_first : ℕ → String → String
unfolding split_cons
split_first sep s = (split_cons sep s).0

-- `s.startswith(p)`
unfoldable pub starts_with : String → String → Bool
starts_with s String.[] = true
starts_with String.[] (String.◌∷◌ d p) = false
starts_with (String.◌∷◌ c s) (String.◌∷◌ d p) = code c == code d && starts_with s p

-- `s.endswith(p)`
unfoldable pub ends_with : String → String → Bool
ends_with String.[] p = "" == p
ends_with (String.◌∷◌ c s) p = String.◌∷◌ c s == p || ends_with s p

-- `p in s`
unfoldable pub has_text : String → String → Bool
unfolding starts_with
has_text p String.[] = starts_with "" p
has_text p (String.◌∷◌ c s) = starts_with (String.◌∷◌ c s) p || has_text p s

-- `s[:n]`
unfoldable pub take_text : ℕ → String → String
take_text zero s = ""
take_text (suc n) String.[] = ""
take_text (suc n) (String.◌∷◌ c s) = String.◌∷◌ c (take_text n s)

-- `s * n`
unfoldable pub repeat_text : ℕ → String → String
repeat_text zero s = ""
repeat_text (suc n) s = s <> repeat_text n s

-- `f"{s:<n}"`
unfoldable pub pad_right : ℕ → String → String
unfolding repeat_text
pad_right n s = s <> repeat_text (n - count s) " "

-- `sep.join(parts)`
unfoldable pub join : String → List String → String
join sep [] = ""
join sep (s ∷ []) = s
join sep (s ∷ t ∷ parts) = s <> sep <> join sep (t ∷ parts)

-- The code points of `s.lower()`, for the letters of ASCII.
unfoldable pub lower_codes : String → List ℕ
lower_codes String.[] = []
lower_codes (String.◌∷◌ c s) =
    (if leb 65 (code c) && leb (code c) 90 then code c + 32 else code c) ∷ lower_codes s

strips : strip "  a b\t" ≡ "a b"
unfolding strip
strips = refl

splits : split b':' "a:9042,b:9042" ≡ "a" ∷ "9042,b" ∷ "9042" ∷ []
unfolding split
splits = refl

finds_words : words " a, b ,,c" ≡ "a" ∷ "b" ∷ "c" ∷ []
unfolding words
finds_words = refl

joins : join ", " ("a" ∷ "b" ∷ []) ≡ "a, b"
unfolding join
joins = refl

finds : has_text "Topology" "NetworkTopologyStrategy" ≡ true
unfolding has_text
finds = refl

ends : ends_with "t_scylla_cdc_log" "_scylla_cdc_log" ≡ true
unfolding ends_with
ends = refl
