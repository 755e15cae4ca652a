-- ===== src/Base/Order.antt =====
-- The order of texts, and that a sort by it puts them in that order.
use Prim.Native.Nat.{Ordering, compare as compare_ℕ}
use Prim.Native.Char.{Char, code}
use Prim.Native.String.{String, compare, then}
use Prim.Native.String.compare
use mathlib.Core.Path.{◌≡◌, refl, sym, ◌∙◌}
use mathlib.Core.Logic.{inl, inr}
use mathlib.Core.Bool.{Bool, true, false, ◌||◌, ◌&&◌}
use mathlib.Core.List.{List, [], ◌∷◌}
use native.Mathlib.Omega.{arith}
use text.Mathlib.Text.{◌==◌, is_eq}
use hacknation_hackathon.Base.Tests.{ltb, eqb, Bool-cases}
use hacknation_hackathon.Base.Lists.{All, All-imp}
use hacknation_hackathon.Base.Sort.{str_lt, insert_by, sort_by, All-insert_by}

abbrev is_lt : Ordering → Bool
is_lt o = elim o [ Ordering.lt ↦ true | _ ↦ false ]

is_lt-then : (o p : Ordering) → is_lt ((then) o p) ≡ (is_lt o || (is_eq o && is_lt p))
is_lt-then Ordering.lt p = refl
is_lt-then Ordering.eq p = refl
is_lt-then Ordering.gt p = refl

is_eq-then : (o p : Ordering) → is_eq ((then) o p) ≡ (is_eq o && is_eq p)
is_eq-then Ordering.lt p = refl
is_eq-then Ordering.eq p = refl
is_eq-then Ordering.gt p = refl

str_lt-cons :
    (c d : Char) (s t : String)
    → str_lt (String.◌∷◌ c s) (String.◌∷◌ d t)
      ≡ (ltb (code c) (code d) || (eqb (code c) (code d) && str_lt s t))
str_lt-cons c d s t =
    (λ i. is_lt (compare.cons-cons c d s t i))
    ∙ is_lt-then (compare_ℕ (code c) (code d)) (compare s t)

eq-cons :
    (c d : Char) (s t : String)
    → (String.◌∷◌ c s == String.◌∷◌ d t) ≡ (eqb (code c) (code d) && (s == t))
eq-cons c d s t =
    (λ i. is_eq (compare.cons-cons c d s t i))
    ∙ is_eq-then (compare_ℕ (code c) (code d)) (compare s t)

str_lt-nil-cons : (d : Char) (t : String) → str_lt "" (String.◌∷◌ d t) ≡ true
str_lt-nil-cons d t = λ i. is_lt (compare.nil-cons d t i)

str_lt-nil : (s : String) → str_lt s "" ≡ false
str_lt-nil String.[] = refl
str_lt-nil (String.◌∷◌ c s) = λ i. is_lt (compare.cons-nil c s i)

-- "Not after" is transitive.
pub str_le_trans : (a b c : String) → str_lt b a ≡ false → str_lt c b ≡ false → str_lt c a ≡ false
str_le_trans String.[] b c h k = str_lt-nil c
str_le_trans (String.◌∷◌ x a) String.[] c h k =
    absurd (let p = str_lt-nil-cons x a in ground (arith, p, h))
str_le_trans (String.◌∷◌ x a) (String.◌∷◌ y b) String.[] h k =
    absurd (let p = str_lt-nil-cons y b in ground (arith, p, k))
str_le_trans (String.◌∷◌ x a) (String.◌∷◌ y b) (String.◌∷◌ z c) h k =
    let h' = sym (str_lt-cons y x b a) ∙ h in
    let k' = sym (str_lt-cons z y c b) ∙ k in
    str_lt-cons z x c a ∙ ground (arith, h', k', str_le_trans a b c)

-- Of two texts that are not equal one is before the other.
pub str_lt_total : (a b : String) → str_lt b a ≡ false → a == b ≡ false → str_lt a b ≡ true
str_lt_total String.[] String.[] h k = ground (arith, k)
str_lt_total String.[] (String.◌∷◌ y b) h k = str_lt-nil-cons y b
str_lt_total (String.◌∷◌ x a) String.[] h k =
    absurd (let p = str_lt-nil-cons x a in ground (arith, p, h))
str_lt_total (String.◌∷◌ x a) (String.◌∷◌ y b) h k =
    let h' = sym (str_lt-cons y x b a) ∙ h in
    let k' = sym (eq-cons x y a b) ∙ k in
    str_lt-cons x y a b ∙ ground (arith, h', k', str_lt_total a b)

str_lt_asym : (a b : String) → str_lt a b ≡ true → str_lt b a ≡ false
str_lt_asym String.[] b h = str_lt-nil b
str_lt_asym (String.◌∷◌ x a) String.[] h =
    absurd (let p = str_lt-nil (String.◌∷◌ x a) in ground (arith, p, h))
str_lt_asym (String.◌∷◌ x a) (String.◌∷◌ y b) h =
    let h' = sym (str_lt-cons x y a b) ∙ h in
    str_lt-cons y x b a ∙ ground (arith, h', str_lt_asym a b)

module _ {ℓ} {A : Type ℓ} (key : A → String) where
  abbrev pub by : A → A → Bool
  by a b = str_lt (key a) (key b)

  -- No element is before one that stands to its left.
  abbrev pub Ordered : List A → Type 0
  Ordered [] = Unit
  Ordered (x ∷ xs) = All (λ y. by y x ≡ false) xs × Ordered xs

  insert_by-Ordered : (x : A) (xs : List A) → Ordered xs → Ordered (insert_by by x xs)
  unfolding insert_by
  insert_by-Ordered x [] h = (tt, tt)
  insert_by-Ordered x (y ∷ ys) h = elim (Bool-cases (by y x)) [
    | inl e ↦ rw e (
      All-insert_by by (λ z. by z y ≡ false) x ys (str_lt_asym (key y) (key x) e) h.0,
      insert_by-Ordered x ys h.1,
    )
    | inr e ↦ rw e ((e, All-imp (λ z k. str_le_trans (key x) (key y) (key z) e k) ys h.0), h)
  ]

  pub sort_by-Ordered : (xs : List A) → Ordered (sort_by by xs)
  unfolding sort_by
  sort_by-Ordered [] = tt
  sort_by-Ordered (x ∷ xs) = insert_by-Ordered x (sort_by by xs) (sort_by-Ordered xs)
