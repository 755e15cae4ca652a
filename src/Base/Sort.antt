-- ===== src/Base/Sort.antt =====
-- `sorted`: stable insertion sort, over a test `less` for "comes strictly before". Only `count` and
-- `All` are needed of it: that a sort keeps the bag.
use Prim.Native.Nat.{suc, Ordering}
use Prim.Native.String.{String, compare}
use mathlib.Core.Path.{◌≡◌, refl, ◌∙◌}
use mathlib.Core.Logic.{inl, inr}
use mathlib.Core.Bool.{Bool, true, false}
use mathlib.Core.List.{List, [], ◌∷◌, ◌++◌}
use native.Mathlib.Omega.{arith}
use hacknation_hackathon.Base.Tests.{Bool-cases, if◌then◌else◌}
use hacknation_hackathon.Base.Lists.{count, count-append, concat, length, All}

-- `s < t` on texts: by code points, as Python compares them
abbrev pub str_lt : String → String → Bool
str_lt s t = elim (compare s t) [ Ordering.lt ↦ true | _ ↦ false ]

module _ {ℓ} {A : Type ℓ} (less : A → A → Bool) where
  -- Before the first element that it comes strictly before, so equal ones keep their order.
  unfoldable pub insert_by : A → List A → List A
  insert_by x [] = x ∷ []
  insert_by x (y ∷ ys) = if less y x then y ∷ insert_by x ys else x ∷ y ∷ ys

  unfoldable pub sort_by : List A → List A
  unfolding insert_by
  sort_by [] = []
  sort_by (x ∷ xs) = insert_by x (sort_by xs)

  pub length-insert_by : (x : A) (xs : List A) → length (insert_by x xs) ≡ suc (length xs)
  unfolding insert_by
  length-insert_by x [] = refl
  length-insert_by x (y ∷ ys) = ground (arith, length-insert_by x ys)

  pub length-sort_by : (xs : List A) → length (sort_by xs) ≡ length xs
  unfolding sort_by
  length-sort_by [] = refl
  length-sort_by (x ∷ xs) = omega (arith, length-insert_by x (sort_by xs), length-sort_by xs)

  pub All-insert_by {κ} :
      (P : A → Type κ) (x : A) (xs : List A) → P x → All P xs → All P (insert_by x xs)
  unfolding insert_by
  All-insert_by P x [] hx h = (hx, tt)
  All-insert_by P x (y ∷ ys) hx h =
      elim (less y x) as (λ b. All P (if b then y ∷ insert_by x ys else x ∷ y ∷ ys)) [
        | true ↦ (h.0, All-insert_by P x ys hx h.1)
        | false ↦ (hx, h)
      ]

  pub All-sort_by {κ} : (P : A → Type κ) (xs : List A) → All P xs → All P (sort_by xs)
  unfolding sort_by
  All-sort_by P [] h = tt
  All-sort_by P (x ∷ xs) h = All-insert_by P x (sort_by xs) h.0 (All-sort_by P xs h.1)

-- `sorted(xs)` over texts
unfoldable pub sorted : List String → List String
unfolding sort_by
sorted = sort_by str_lt

count-insert_by :
    (a x : String) (xs : List String) → count a (insert_by str_lt x xs) ≡ count a (x ∷ xs)
unfolding insert_by
count-insert_by a x [] = refl
count-insert_by a x (y ∷ ys) = ground (arith, count-insert_by a x ys)

pub count-sorted : (a : String) (xs : List String) → count a (sorted xs) ≡ count a xs
unfolding sorted
count-sorted a [] = refl
count-sorted a (x ∷ xs) = ground (arith, count-insert_by a x (sorted xs), count-sorted a xs)

module _ (less : List String → List String → Bool) where
  count-concat-insert_by :
      (a : String) (x : List String) (xs : List (List String))
      → count a (concat (insert_by less x xs)) ≡ count a (concat (x ∷ xs))
  unfolding insert_by
  count-concat-insert_by a x [] = refl
  count-concat-insert_by a x (y ∷ ys) = elim (Bool-cases (less y x)) [
    | inr e ↦ rw e refl
    | inl e ↦ rw e (
        omega (
          arith,
          count-append a y (concat (insert_by less x ys)),
          count-append a x (y ++ concat ys),
          count-append a y (concat ys),
          count-append a x (concat ys),
          count-concat-insert_by a x ys,
        ))
  ]

  -- Sorting lists of texts moves no text.
  pub count-concat-sort_by :
      (a : String) (xs : List (List String))
      → count a (concat (sort_by less xs)) ≡ count a (concat xs)
  unfolding sort_by
  count-concat-sort_by a [] = refl
  count-concat-sort_by a (x ∷ xs) =
      count-concat-insert_by a x (sort_by less xs)
      ∙ omega (
        arith,
        count-append a x (concat (sort_by less xs)),
        count-append a x (concat xs),
        count-concat-sort_by a xs,
      )
