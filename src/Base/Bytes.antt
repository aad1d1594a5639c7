-- ===== src/Base/Bytes.antt =====
-- Python's little-endian numbers, and slices of lists.
use scylla_k8s_example.Base.{
  ℕ, zero, suc, ◌+◌, ◌*◌, ◌/◌, ◌%◌, ◌^◌, ◌<◌, ◌≡◌, refl, sym, ap, ◌∙◌, List, [], ◌∷◌, ◌++◌,
}
use scylla_k8s_example.Base.{length, take, drop, arith}

-- `int.from_bytes(b, "little")`
abbrev pub from_little : List ℕ → ℕ
from_little [] = 0
from_little (b ∷ rest) = b + 256 * from_little rest

-- `k.to_bytes(n, "little")`, for a number that has room
abbrev pub to_little : ℕ → ℕ → List ℕ
to_little zero k = []
to_little (suc n) k = k % 256 ∷ to_little n (k / 256)

pub to_little-length : (n k : ℕ) → length (to_little n k) ≡ n
to_little-length zero k = refl
to_little-length (suc n) k = ap suc (to_little-length n (k / 256))

pub from_little-to_little : (n k : ℕ) → k < 256 ^ n → from_little (to_little n k) ≡ k
from_little-to_little zero k h = omega arith
from_little-to_little (suc n) k h =
    let power : 256 ^ suc n ≡ 256 ^ n * 256 = omega arith in
    let smaller : k / 256 < 256 ^ n = omega (arith, h, power) in
    omega (arith, from_little-to_little n (k / 256) smaller)

module _ {A : Type 0} where
  pub take-append : (l m : List A) → take (length l) (l ++ m) ≡ l
  take-append [] m = refl
  take-append (x ∷ l) m = ap (λ r. x ∷ r) (take-append l m)

  pub drop-append : (l m : List A) → drop (length l) (l ++ m) ≡ m
  drop-append [] m = refl
  drop-append (x ∷ l) m = drop-append l m

  drop-nil : (n : ℕ) → drop {A = A} n [] ≡ []
  drop-nil zero = refl
  drop-nil (suc n) = refl

  pub drop-drop : (a b : ℕ) (l : List A) → drop (a + b) l ≡ drop b (drop a l)
  drop-drop zero b l = ap (λ n. drop n l) (omega arith)
  drop-drop (suc a) b [] = drop-nil (suc a + b) ∙ sym (drop-nil b)
  drop-drop (suc a) b (x ∷ l) =
      let next : suc a + b ≡ suc (a + b) = omega arith in
      ap (λ n. drop n (x ∷ l)) next ∙ drop-drop a b l
