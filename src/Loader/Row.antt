-- ===== src/Loader/Row.antt =====
-- One row of the loader (sample_app/loader.py, `generate_row`).
use Prim.Native.String.{count}
use text.Mathlib.TextLemmas.{length-append, length-cons, length-nil}
use scylla_k8s_example.Base.{ℕ, zero, suc, ◌+◌, ◌-◌, ◌%◌, ◌≤◌, ◌<◌, ◌≡◌, refl}
use scylla_k8s_example.Base.{
  String, ◌<>◌, List, [], ◌∷◌, ◌++◌, Option, none, some, arith, Bool-cases, inl, inr,
}
use scylla_k8s_example.Base.{ltb, ltb→lt, ltb-false→le, if◌then◌else◌, and_then, and_then-some}
use scylla_k8s_example.Base.Text.{take_text, join}

-- What the generators of random numbers and of sentences give for one row. The balance is in cents.
pub record Draws : Type 0 where
  pub ssn : String
  pub imei : String
  pub os_name : String
  pub phone : String
  pub balance : ℕ
  pub date : String
  -- the sentences, in the order `fake.sentence()` gives them
  pub sentence : ℕ → String

pub record Row : Type 0 where
  pub bucket : ℕ
  pub id : ℕ
  pub ssn : String
  pub imei : String
  pub os : String
  pub phonenum : String
  pub balance : ℕ
  pub pdate : String
  pub message : String

-- `sum(len(s) for s in sentences)`
unfoldable pub total_length : List String → ℕ
total_length [] = 0
total_length (s ∷ l) = count s + total_length l

-- The loop that collects sentences, with the fuel that is left; `n` of them are there already.
unfoldable pub collect : ℕ → (ℕ → String) → ℕ → ℕ → List String → Option (List String)
collect zero sentence needed n sentences = none
collect (suc fuel) sentence needed n sentences =
    let more = collect fuel sentence needed (suc n) (sentences ++ (sentence n ∷ [])) in
    if ltb (total_length sentences) needed then more else some sentences

abbrev pub base_string : Draws → String
base_string d = "IMEI:" <> d.imei <> "|OS:" <> d.os_name <> "|Phone:" <> d.phone

-- Each sentence has a character, so as many rounds as characters are missing are enough.
unfoldable pub message_of : Draws → Option String
message_of d =
    let base = base_string d in
    let needed = 200 - count base in
    if ltb (count base) 200
    then and_then (collect (suc needed) d.sentence needed 0 [])
        (λ sentences. some (base <> take_text needed (join " " sentences)))
    else some (take_text 200 base)

abbrev row_with : Draws → ℕ → ℕ → String → Row
row_with d row_id num_buckets message = record {
  bucket = row_id % num_buckets;
  id = row_id;
  ssn = d.ssn;
  imei = d.imei;
  os = d.os_name;
  phonenum = d.phone;
  balance = d.balance;
  pdate = d.date;
  message = message;
}

-- `num_buckets` is at least one, and no id is negative.
unfoldable pub generate_row : Draws → ℕ → ℕ → Option Row
generate_row d row_id num_buckets =
    and_then (message_of d) λ message. some (row_with d row_id num_buckets message)

count-take_text : (n : ℕ) (s : String) → n ≤ count s → count (take_text n s) ≡ n
unfolding take_text
count-take_text zero s h = refl
count-take_text (suc n) String.[] h = absurd (omega (arith, h, length-nil))
count-take_text (suc n) (String.◌∷◌ c s) h =
    omega (
      arith,
      length-cons c (take_text n s),
      count-take_text n s (omega (arith, h, length-cons c s)),
    )

total_length-last :
    (l : List String) (s : String) → total_length (l ++ (s ∷ [])) ≡ total_length l + count s
unfolding total_length
total_length-last [] s = omega arith
total_length-last (t ∷ l) s = omega (arith, total_length-last l s)

-- A joined text is at least as long as its parts.
total_length-join : (l : List String) → total_length l ≤ count (join " " l)
unfolding total_length join
total_length-join [] = omega arith
total_length-join (s ∷ []) = omega arith
total_length-join (s ∷ t ∷ l) = omega (
  arith,
  total_length-join (t ∷ l),
  length-append s (" " <> join " " (t ∷ l)),
  length-append " " (join " " (t ∷ l)),
)

-- The loop ends, with enough sentences.
collect-total :
    (fuel : ℕ) (sentence : ℕ → String) (needed n : ℕ) (l : List String)
    → ((k : ℕ) → 1 ≤ count (sentence k))
    → needed - total_length l < fuel
    → (m : List String) × ((collect fuel sentence needed n l ≡ some m) × (needed ≤ total_length m))
unfolding collect
collect-total zero sentence needed n l h enough = absurd (omega arith)
collect-total (suc fuel) sentence needed n l h enough =
    elim (Bool-cases (ltb (total_length l) needed)) [
      | inl short ↦
          let missing = ltb→lt _ _ short in
          let grown = total_length-last l (sentence n) in
          let (m, (found, long)) =
            collect-total fuel sentence needed (suc n) (l ++ (sentence n ∷ [])) h
              (omega (arith, grown, h n, missing, enough)) in
          (m, (rw short found, long))
      | inr done ↦ (l, (rw done refl, ltb-false→le _ _ done))
    ]

message_of-total :
    (d : Draws)
    → ((k : ℕ) → 1 ≤ count (d.sentence k))
    → (m : String) × ((message_of d ≡ some m) × (count m ≡ 200))
unfolding message_of
message_of-total d h = elim (Bool-cases (ltb (count (base_string d)) 200)) [
  | inl short ↦
      let needed = 200 - count (base_string d) in
      let missing = ltb→lt _ _ short in
      let (l, (found, long)) = collect-total (suc needed) d.sentence needed 0 [] h (omega arith) in
      let filled = count-take_text needed (join " " l) (omega (arith, long, total_length-join l)) in
      (
        base_string d <> take_text needed (join " " l),
        (
          rw short (and_then-some found _),
          omega (
            arith,
            length-append (base_string d) (take_text needed (join " " l)),
            filled,
            missing,
          ),
        ),
      )
  | inr long ↦
      let enough = ltb-false→le _ _ long in
      (take_text 200 (base_string d), (rw long refl, count-take_text 200 (base_string d) enough))
]

-- If each sentence has a character, a row is generated, for the given id; its bucket is one of the
-- buckets and determined by the id, and its message has 200 characters, however long the base is.
pub generate_row-total :
    (d : Draws) (row_id num_buckets : ℕ)
    → 1 ≤ num_buckets
    → ((k : ℕ) → 1 ≤ count (d.sentence k))
    → (r : Row) × ((generate_row d row_id num_buckets ≡ some r)
        × ((r.id ≡ row_id)
            × ((r.bucket ≡ row_id % num_buckets)
                × ((r.bucket < num_buckets) × (count r.message ≡ 200)))))
unfolding generate_row
generate_row-total d row_id num_buckets h k =
    let (m, (found, long)) = message_of-total d k in
    let in_range : row_id % num_buckets < num_buckets = omega arith in
    (row_with d row_id num_buckets m, (and_then-some found _, (refl, (refl, (in_range, long)))))
