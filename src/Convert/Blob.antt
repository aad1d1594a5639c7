-- ===== src/Convert/Blob.antt =====
-- The blobs in which ScyllaDB keeps schema extensions (sample_app/convert_to_tablets.py,
-- `decode_extension`). Texts stay as their bytes: the program only looks for ASCII keys and values,
-- which no other bytes decode to.
pub mod Roundtrip
use scylla_k8s_example.Base.{
  ℕ, zero, suc, ◌+◌, ◌*◌, ◌≡◌, refl, Bool, true, false, ◌&&◌, Option, none, some,
}
use scylla_k8s_example.Base.Bytes.{from_little}
use scylla_k8s_example.Base.{List, [], ◌∷◌, take, drop, if◌then◌else◌, nat_eq, ◌==◌}

abbrev pub Bytes : Type 0
Bytes = List ℕ

unfoldable pub same_bytes : Bytes → Bytes → Bool
same_bytes [] [] = true
same_bytes (a ∷ x) (b ∷ y) = a == b && same_bytes x y
same_bytes _ _ = false

-- The loop over the length-prefixed texts. A slice past the end of the blob is short or empty.
unfoldable pub read_texts : ℕ → ℕ → Bytes → List Bytes
read_texts zero offset blob = []
read_texts (suc rounds) offset blob =
    let size = from_little (take 4 (drop offset blob)) in
    take size (drop (offset + 4) blob) ∷ read_texts rounds (offset + 4 + size) blob

-- `d[k] = v`
unfoldable pub put : Bytes → Bytes → List (Bytes × Bytes) → List (Bytes × Bytes)
put k v [] = (k, v) ∷ []
put k v ((j, w) ∷ d) = if same_bytes j k then (j, v) ∷ d else (j, w) ∷ put k v d

-- `dict(zip(values[0::2], values[1::2]))`
unfoldable pub pair_up : List Bytes → List (Bytes × Bytes) → List (Bytes × Bytes)
pair_up (k ∷ v ∷ values) d = pair_up values (put k v d)
pair_up _ d = d

unfoldable pub decode_extension : Bytes → List (Bytes × Bytes)
decode_extension blob = pair_up (read_texts (from_little (take 4 blob) * 2) 4 blob) []

-- `d.get(k)`
unfoldable pub find : Bytes → List (Bytes × Bytes) → Option Bytes
find k [] = none
find k ((j, v) ∷ d) = if same_bytes j k then some v else find k d
