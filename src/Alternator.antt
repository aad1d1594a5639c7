-- ===== src/Alternator.antt =====
-- The values that the scripts keep in an Alternator table's attributes
-- (sample_app/alternator-client/encode_alternator.py, decode_alternator.py, cql-alternator-faker.py).
-- A text is its UTF-8 bytes.
use scylla_k8s_example.Base.{ℕ, ◌^◌, ◌≡◌, sym, ap, ◌∙◌, List, [], ◌∷◌, ◌++◌, Option, none, some}
use scylla_k8s_example.Base.{
  none≢some, take, ltb, ltb→lt, if◌then◌else◌, nat_eq, ◌==◌, Bool-cases, inl, inr,
}
use scylla_k8s_example.Base.Bytes.{from_little, to_little, from_little-to_little}

pub data Value : Type 0 where
  text : List ℕ → Value
  number : ℕ → Value

-- `b[::-1]`
unfoldable pub reversed : List ℕ → List ℕ
reversed [] = []
reversed (x ∷ l) = reversed l ++ (x ∷ [])

-- `none` is the `OverflowError` of a number that does not fit into seven bytes.
unfoldable pub encode_alternator_blob : Value → Option (List ℕ)
encode_alternator_blob (text bytes) = some (0 ∷ bytes)
encode_alternator_blob (number value) =
    if ltb value (256 ^ 7) then some (3 ∷ 0 ∷ 0 ∷ 0 ∷ reversed (to_little 7 value)) else none

-- `blob[4:11]`
abbrev after_header : List ℕ → List ℕ
after_header (a ∷ b ∷ c ∷ d ∷ blob) = take 7 blob
after_header _ = []

unfoldable pub decode_alternator_blob : List ℕ → Option Value
decode_alternator_blob [] = none
decode_alternator_blob (tag ∷ blob) =
    if tag == 3
    then some (number (from_little (reversed (after_header (tag ∷ blob)))))
    else if tag == 0
    then some (text blob)
    else none

-- A value that can be encoded is decoded again: every text, and every number below 256 ^ 7.
pub decode_alternator_blob-encode_alternator_blob :
    (v : Value) (blob : List ℕ)
    → encode_alternator_blob v ≡ some blob
    → decode_alternator_blob blob ≡ some v
unfolding encode_alternator_blob decode_alternator_blob reversed
decode_alternator_blob-encode_alternator_blob (text bytes) blob h =
    let same_blob : 0 ∷ bytes ≡ blob = cc h in ap decode_alternator_blob (sym same_blob)
decode_alternator_blob-encode_alternator_blob (number value) blob h =
    elim (Bool-cases (ltb value (256 ^ 7))) [
      | inl fits ↦
          let same_blob : 3 ∷ 0 ∷ 0 ∷ 0 ∷ reversed (to_little 7 value) ≡ blob = cc (rw fits at h) in
          ap decode_alternator_blob (sym same_blob)
          ∙ ap (λ n. some (number n)) (from_little-to_little 7 value (ltb→lt value (256 ^ 7) fits))
      | inr large ↦ absurd (none≢some (rw large at h))
    ]
