-- ===== src/Prelude/Lists.antt =====
-- Lists over the native numbers, membership of texts as a test, and counting.
use Prim.Native.Nat.{ℕ, zero, suc, ◌+◌, ◌≤◌}
use Prim.Native.String.{String}
use mathlib.Core.Path.{◌≡◌, refl, sym}
use mathlib.Core.Logic.{inl, inr}
use mathlib.Core.Bool.{Bool, true, false, ◌&&◌, ◌||◌, not}
use mathlib.Core.List.{List, [], ◌∷◌, ◌++◌}
use native.Mathlib.Omega.{arith}
use text.Mathlib.Text.{◌==◌}
use text.Mathlib.TextEquality.{eq_iff}
use akoflow_workflow_engine.Prelude.Tests.{if◌then◌else◌, Bool-cases}

module _ {ℓ} {A : Type ℓ} where
  abbrev pub length : List A → ℕ
  length [] = 0
  length (x ∷ xs) = suc (length xs)

  abbrev pub take : ℕ → List A → List A
  take zero xs = []
  take (suc n) [] = []
  take (suc n) (x ∷ xs) = x ∷ take n xs

  -- `for … { if test { result = append(result, x) } }`
  abbrev pub select : (A → Bool) → List A → List A
  select p [] = []
  select p (x ∷ xs) = let rest = select p xs in if p x then x ∷ rest else rest

  abbrev pub any : (A → Bool) → List A → Bool
  any p [] = false
  any p (x ∷ xs) = p x || any p xs

  abbrev pub all : (A → Bool) → List A → Bool
  all p [] = true
  all p (x ∷ xs) = p x && all p xs

  abbrev pub count_if : (A → Bool) → List A → ℕ
  count_if p [] = 0
  count_if p (x ∷ xs) = let rest = count_if p xs in if p x then suc rest else rest

  abbrev pub All {κ} : (A → Type κ) → List A → Type κ
  All P [] = Unit
  All P (x ∷ xs) = P x × All P xs

  pub length-append : (xs ys : List A) → length (xs ++ ys) ≡ length xs + length ys
  length-append [] ys = omega arith
  length-append (x ∷ xs) ys = omega (arith, length-append xs ys)

  pub length-take-le : (n : ℕ) (xs : List A) → length (take n xs) ≤ n
  length-take-le zero xs = omega arith
  length-take-le (suc n) [] = omega arith
  length-take-le (suc n) (x ∷ xs) = omega (arith, length-take-le n xs)

  pub length-take-le_length : (n : ℕ) (xs : List A) → length (take n xs) ≤ length xs
  length-take-le_length zero xs = omega arith
  length-take-le_length (suc n) [] = omega arith
  length-take-le_length (suc n) (x ∷ xs) = omega (arith, length-take-le_length n xs)

  pub All-append {κ} : (P : A → Type κ) (xs ys : List A) → All P xs → All P ys → All P (xs ++ ys)
  All-append P [] ys h k = k
  All-append P (x ∷ xs) ys h k = (h.0, All-append P xs ys h.1 k)

  pub All-take {κ} : (P : A → Type κ) (n : ℕ) (xs : List A) → All P xs → All P (take n xs)
  All-take P zero xs h = tt
  All-take P (suc n) [] h = tt
  All-take P (suc n) (x ∷ xs) h = (h.0, All-take P n xs h.1)

  pub All-weaken {κ ν} :
      (P : A → Type κ) (Q : A → Type ν)
      → ((a : A) → P a → Q a)
      → (xs : List A) → All P xs
      → All Q xs
  All-weaken P Q f [] h = tt
  All-weaken P Q f (x ∷ xs) h = (f x h.0, All-weaken P Q f xs h.1)

-- `for _, x := range xs { if x == s { … } }`
abbrev pub contains : List String → String → Bool
contains [] s = false
contains (x ∷ xs) s = x == s || contains xs s

abbrev pub count : String → List String → ℕ
count s [] = 0
count s (x ∷ xs) = let rest = count s xs in if x == s then suc rest else rest

-- No text stands twice.
abbrev pub distinct : List String → Bool
distinct [] = true
distinct (x ∷ xs) = not (contains xs x) && distinct xs

abbrev pub remove : String → List String → List String
remove s [] = []
remove s (x ∷ xs) = let rest = remove s xs in if x == s then rest else x ∷ rest

pub contains-append :
    (xs ys : List String) (s : String) → contains (xs ++ ys) s ≡ (contains xs s || contains ys s)
contains-append [] ys s = refl
contains-append (x ∷ xs) ys s = ground (arith, contains-append xs ys s)

pub contains-remove :
    (s t : String) (xs : List String)
    → contains (remove s xs) t ≡ (if s == t then false else contains xs t)
contains-remove s t [] = ground arith
contains-remove s t (x ∷ xs) =
    ground (arith, contains-remove s t xs, eq_iff x s, eq_iff x t, eq_iff s t)

length-remove_fresh :
    (s : String) (xs : List String) → contains xs s ≡ false → length (remove s xs) ≡ length xs
length-remove_fresh s [] h = refl
length-remove_fresh s (x ∷ xs) h = ground (arith, length-remove_fresh s xs)

length-remove-le : (s : String) (xs : List String) → length (remove s xs) ≤ length xs
length-remove-le s [] = omega arith
length-remove-le s (x ∷ xs) = ground (arith, length-remove-le s xs)

pub length-remove-lt :
    (s : String) (xs : List String) → contains xs s ≡ true → suc (length (remove s xs)) ≤ length xs
length-remove-lt s [] h = ground arith
length-remove-lt s (x ∷ xs) h = ground (arith, length-remove-lt s xs, length-remove-le s xs)

-- A list of distinct texts that all stand in another is no longer than that.
pub distinct-length-le :
    (xs ys : List String)
    → distinct xs ≡ true
    → ((s : String) → contains xs s ≡ true → contains ys s ≡ true)
    → length xs ≤ length ys
distinct-length-le [] ys h sub = omega arith
distinct-length-le (x ∷ xs) ys h sub =
    let inside : contains ys x ≡ true = sub x (ground (arith, eq_iff x x)) in
    let shorter : length xs ≤ length (remove x ys) =
      distinct-length-le xs (remove x ys) (ground arith)
        λ s m. ground (arith, contains-remove x s ys, sub s, eq_iff x s, distinct_head) in
    omega (arith, length-remove-lt x ys inside)
  where
    distinct_head : contains xs x ≡ false
    distinct_head = ground arith

-- A list of distinct texts, as long as one that holds all of them, holds all of that one.
pub distinct-fills :
    (xs ys : List String)
    → distinct xs ≡ true
    → ((v : String) → contains xs v ≡ true → contains ys v ≡ true)
    → length ys ≤ length xs
    → (v : String) → contains ys v ≡ true
    → contains xs v ≡ true
distinct-fills xs ys d sub n v h = elim (Bool-cases (contains xs v)) [
  | inl e ↦ e
  | inr e ↦ absurd (
      omega (
        arith,
        distinct-length-le (v ∷ xs) ys (ground arith) (λ u m. ground (arith, sub u, eq_iff v u)),
      ))
]

pub same_Bool : (a b : Bool) → (a ≡ true → b ≡ true) → (b ≡ true → a ≡ true) → a ≡ b
same_Bool true b f g = sym (f refl)
same_Bool false true f g = g refl
same_Bool false false f g = refl
