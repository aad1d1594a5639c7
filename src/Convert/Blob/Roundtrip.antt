-- ===== src/Convert/Blob/Roundtrip.antt =====
-- Reading back a blob that is laid out as ScyllaDB lays out its extensions
-- (sample_app/convert_to_tablets.py, `decode_extension`).
use scylla_k8s_example.Base.{ℕ, ◌+◌, ◌*◌, ◌^◌, ◌<◌, ◌≡◌, refl, sym, ap, ◌∙◌, List, [], ◌∷◌, ◌++◌}
use scylla_k8s_example.Base.{length, take, drop, All, arith}
use scylla_k8s_example.Base.Bytes.{from_little, to_little, from_little-to_little}
use scylla_k8s_example.Base.Bytes.{take-append, drop-append, drop-drop}
use scylla_k8s_example.Base.{
  Option, none, some, Bool, true, false, &&-eq-true, nat_beq_iff, nat_eq, ◌==◌, Bool-cases, inl,
  inr, if◌then◌else◌,
}
use mathlib.Core.Bool.{false≢true}
use scylla_k8s_example.Convert.Blob.{
  Bytes, same_bytes, put, find, read_texts, pair_up, decode_extension,
}

-- Each text behind its length, and a map of texts behind the number of its entries.
pub encode_texts : List Bytes → Bytes
encode_texts [] = []
encode_texts (t ∷ l) = to_little 4 (length t) ++ (t ++ encode_texts l)

abbrev pub flatten : List (Bytes × Bytes) → List Bytes
flatten [] = []
flatten ((k, v) ∷ d) = k ∷ v ∷ flatten d

pub encode_extension : List (Bytes × Bytes) → Bytes
encode_extension d = to_little 4 (length d) ++ encode_texts (flatten d)

-- A length has room in four bytes.
abbrev pub Fits : Bytes → Type 0
Fits t = length t < 256 ^ 4

take_little : (k : ℕ) (m : Bytes) → take 4 (to_little 4 k ++ m) ≡ to_little 4 k
take_little k m = refl

drop_little : (k : ℕ) (m : Bytes) → drop 4 (to_little 4 k ++ m) ≡ m
drop_little k m = refl

read_texts-encode_texts :
    (l : List Bytes) (offset : ℕ) (blob : Bytes)
    → All Fits l
    → drop offset blob ≡ encode_texts l
    → read_texts (length l) offset blob ≡ l
unfolding read_texts encode_texts
read_texts-encode_texts [] offset blob f h = refl
read_texts-encode_texts (t ∷ l) offset blob (f, fs) h =
    let size : from_little (take 4 (drop offset blob)) ≡ length t =
      ap (λ b. from_little (take 4 b)) h ∙ from_little-to_little 4 (length t) f in
    let body : drop (offset + 4) blob ≡ t ++ encode_texts l =
      drop-drop offset 4 blob ∙ ap (drop 4) h in
    let text = ap (take (length t)) body ∙ take-append t (encode_texts l) in
    let others : drop (offset + 4 + length t) blob ≡ encode_texts l =
      drop-drop (offset + 4) (length t) blob
      ∙ ap (drop (length t)) body
      ∙ drop-append t (encode_texts l) in
    ap (λ n. take n (drop (offset + 4) blob) ∷ read_texts (length l) (offset + 4 + n) blob) size
    ∙ ap (λ b. b ∷ read_texts (length l) (offset + 4 + length t) blob) text
    ∙ ap (λ r. t ∷ r) (read_texts-encode_texts l (offset + 4 + length t) blob fs others)

flatten-length : (d : List (Bytes × Bytes)) → length (flatten d) ≡ length d * 2
flatten-length [] = omega arith
flatten-length ((k, v) ∷ d) = omega (arith, flatten-length d)

abbrev or_else : Option Bytes → Option Bytes → Option Bytes
or_else none o = o
or_else (some v) o = some v

-- The value that a list of entries has for a key: that of the last entry with it.
abbrev pub last_value : Bytes → List (Bytes × Bytes) → Option Bytes
last_value k [] = none
last_value k ((j, v) ∷ d) = or_else (last_value k d) (if same_bytes j k then some v else none)

same_bytes-eq : (a b : Bytes) → same_bytes a b ≡ true → a ≡ b
unfolding same_bytes
same_bytes-eq [] [] h = refl
same_bytes-eq [] (y ∷ b) h = cc h
same_bytes-eq (x ∷ a) [] h = cc h
same_bytes-eq (x ∷ a) (y ∷ b) h =
    let (first, rest) = &&-eq-true (x == y) (same_bytes a b) h in
    ap (λ n. n ∷ a) ((nat_beq_iff x y).0 first) ∙ ap (λ l. y ∷ l) (same_bytes-eq a b rest)

-- A value that was put is found, and the values of the other keys stay.
find-put :
    (k j v : Bytes) (d : List (Bytes × Bytes))
    → find k (put j v d) ≡ (if same_bytes j k then some v else find k d)
unfolding find put
find-put k j v [] = refl
find-put k j v ((i, w) ∷ d) = elim (Bool-cases (same_bytes i j)) [
  | inl same ↦
      let i_is_j = same_bytes-eq i j same in
      rw same (elim (Bool-cases (same_bytes i k)) [
        | inl e ↦ let e' = ap (λ x. same_bytes x k) (sym i_is_j) ∙ e in rw e (rw e' refl)
        | inr e ↦ let e' = ap (λ x. same_bytes x k) (sym i_is_j) ∙ e in rw e (rw e' refl)
      ])
  | inr other ↦ rw other (elim (Bool-cases (same_bytes j k)) [
    | inl a ↦ elim (Bool-cases (same_bytes i k)) [
      | inl b ↦
          let both = ap (λ x. same_bytes i x) (same_bytes-eq j k a) ∙ b in
          absurd (false≢true (sym other ∙ both))
      | inr b ↦ let ih = find-put k j v d in rw (a, b) (rw a at ih)
    ]
    | inr a ↦ elim (Bool-cases (same_bytes i k)) [
      | inl b ↦ rw (a, b) refl
      | inr b ↦ let ih = find-put k j v d in rw (a, b) (rw a at ih)
    ]
  ])
]

earlier_value :
    (o : Option Bytes) (b : Bool) (v : Bytes) (x : Option Bytes)
    → or_else o (if b then some v else x) ≡ or_else (or_else o (if b then some v else none)) x
earlier_value none true v x = refl
earlier_value none false v x = refl
earlier_value (some w) b v x = refl

find-pair_up :
    (k : Bytes) (d acc : List (Bytes × Bytes))
    → find k (pair_up (flatten d) acc) ≡ or_else (last_value k d) (find k acc)
unfolding pair_up
find-pair_up k [] acc = refl
find-pair_up k ((j, v) ∷ d) acc =
    find-pair_up k d (put j v acc)
    ∙ ap (or_else (last_value k d)) (find-put k j v acc)
    ∙ earlier_value (last_value k d) (same_bytes j k) v (find k acc)

decoded :
    (d : List (Bytes × Bytes))
    → length d < 256 ^ 4
    → All Fits (flatten d)
    → decode_extension (encode_extension d) ≡ pair_up (flatten d) []
unfolding decode_extension encode_extension
decoded d f fs =
    let rounds : from_little (to_little 4 (length d)) * 2 ≡ length (flatten d) =
      ap (λ n. n * 2) (from_little-to_little 4 (length d) f) ∙ sym (flatten-length d) in
    ap (λ n. pair_up (read_texts n 4 (encode_extension d)) []) rounds
    ∙ ap (λ l. pair_up l []) (read_texts-encode_texts (flatten d) 4 (encode_extension d) fs refl)

or_else-none : (o : Option Bytes) → or_else o none ≡ o
or_else-none none = refl
or_else-none (some v) = refl

-- If the number of entries and the lengths of all texts have room in four bytes, then looking up any
-- key in the dict decoded from the encoded entries gives the value of the last entry with that key,
-- and nothing if no entry has it.
pub decode_extension-encode_extension :
    (d : List (Bytes × Bytes))
    → length d < 256 ^ 4
    → All Fits (flatten d)
    → (k : Bytes) → find k (decode_extension (encode_extension d)) ≡ last_value k d
unfolding find
decode_extension-encode_extension d f fs k =
    ap (find k) (decoded d f fs) ∙ find-pair_up k d [] ∙ or_else-none (last_value k d)
