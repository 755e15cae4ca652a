-- ===== src/Base/Lists.antt =====
-- Lists measured by native numbers, and bags of texts by the number of occurrences.
use Prim.Native.Nat.{ℕ, zero, suc, ◌+◌, ◌≤◌}
use Prim.Native.String.{String}
use mathlib.Core.Path.{◌≡◌, refl}
use mathlib.Core.Bool.{Bool, true, false, ◌||◌}
use mathlib.Core.Option.{Option, none, some}
use mathlib.Core.List.{List, [], ◌∷◌, ◌++◌}
use native.Mathlib.Omega.{arith}
use text.Mathlib.Text.{◌==◌}
use hacknation_hackathon.Base.Tests.{if◌then◌else◌}

module _ {ℓ} {A : Type ℓ} where
  abbrev pub length : List A → ℕ
  length [] = 0
  length (x ∷ xs) = suc (length xs)

  abbrev pub take : ℕ → List A → List A
  take zero xs = []
  take (suc n) [] = []
  take (suc n) (x ∷ xs) = x ∷ take n xs

  abbrev pub get_elem? : List A → ℕ → Option A
  get_elem? [] i = none
  get_elem? (x ∷ xs) zero = some x
  get_elem? (x ∷ xs) (suc i) = get_elem? xs i

  abbrev pub head? : List A → Option A
  head? [] = none
  head? (x ∷ xs) = some x

  -- `[x for x in xs if p(x)]`
  abbrev pub select : (A → Bool) → List A → List A
  select p [] = []
  select p (x ∷ xs) = if p x then x ∷ select p xs else select p xs

  -- `any(p(x) for x in xs)`
  abbrev pub any : (A → Bool) → List A → Bool
  any p [] = false
  any p (x ∷ xs) = p x || any p xs

  -- The first element with `p`: `for x in xs: if p(x): return x`.
  abbrev pub find : (A → Bool) → List A → Option A
  find p [] = none
  find p (x ∷ xs) = if p x then some x else find p xs

  abbrev pub All {κ} : (A → Type κ) → List A → Type κ
  All P [] = Unit
  All P (x ∷ xs) = P x × All P xs

  pub length-append : (xs ys : List A) → length (xs ++ ys) ≡ length xs + length ys
  length-append [] ys = omega arith
  length-append (x ∷ xs) ys = omega (arith, length-append xs ys)

  pub All-append {κ} :
      (P : A → Type κ) (front back : List A) (hf : All P front) (hb : All P back)
      → All P (front ++ back)
  All-append P (x ∷ front) back (px, hf) hb = (px, All-append P front back hf hb)
  All-append P [] back hf hb = hb

  pub All-imp {κ μ} :
      {P : A → Type κ} {Q : A → Type μ}
      → ((x : A) → P x → Q x)
      → (xs : List A) → All P xs
      → All Q xs
  All-imp f [] h = tt
  All-imp f (x ∷ xs) h = (f x h.0, All-imp f xs h.1)

  All-select_cons {κ} :
      (P : A → Type κ) (x : A) (b : Bool) (rest : List A)
      → (b ≡ true → P x)
      → All P rest
      → All P (if b then x ∷ rest else rest)
  All-select_cons P x true rest h hr = (h refl, hr)
  All-select_cons P x false rest h hr = hr

  -- What `p` lets through has `P`.
  pub All-select {κ} :
      (P : A → Type κ) (p : A → Bool) (xs : List A)
      → All (λ x. p x ≡ true → P x) xs
      → All P (select p xs)
  All-select P p [] h = tt
  All-select P p (x ∷ xs) h = All-select_cons P x (p x) (select p xs) h.0 (All-select P p xs h.1)

  pub length-take-le : (n : ℕ) (xs : List A) → length (take n xs) ≤ n
  length-take-le zero xs = omega arith
  length-take-le (suc n) [] = omega arith
  length-take-le (suc n) (x ∷ xs) = omega (arith, length-take-le n xs)

abbrev pub concat {ℓ} : {A : Type ℓ} → List (List A) → List A
concat [] = []
concat (xs ∷ rest) = xs ++ concat rest

-- `x in xs`, over texts
abbrev pub contains : String → List String → Bool
contains a [] = false
contains a (x ∷ xs) = x == a || contains a xs

-- How often a text occurs.
abbrev pub count : String → List String → ℕ
count a [] = 0
count a (x ∷ xs) = if x == a then suc (count a xs) else count a xs

pub count-append : (a : String) (xs ys : List String) → count a (xs ++ ys) ≡ count a xs + count a ys
count-append a [] ys = omega arith
count-append a (x ∷ xs) ys = ground (arith, count-append a xs ys)

pub contains_of_count : (a : String) (xs : List String) → 1 ≤ count a xs → contains a xs ≡ true
contains_of_count a [] h = absurd (omega arith)
contains_of_count a (x ∷ xs) h = ground (arith, contains_of_count a xs)

pub count_of_contains : (a : String) (xs : List String) → contains a xs ≡ true → 1 ≤ count a xs
count_of_contains a (x ∷ xs) h = ground (arith, count_of_contains a xs)
count_of_contains a [] h = ground arith

pub count_of_not_contains : (a : String) (xs : List String) → contains a xs ≡ false → count a xs ≡ 0
count_of_not_contains a [] h = refl
count_of_not_contains a (x ∷ xs) h = ground (arith, count_of_not_contains a xs)
