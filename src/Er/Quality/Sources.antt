-- ===== src/Er/Quality/Sources.antt =====
-- er/quality.py: the sets of sources that `corroborate` builds.
use hacknation_hackathon.Base.{
  String, Bool, true, false, Option, none, some, List, [], ◌∷◌, ◌==◌, ltb, length, contains, select,
  All, Bool-cases, ◌≡◌, refl, ap, subst, some-injective, eq_refl, ◌⊎◌, inl, inr, arith, eq_iff,
}
use hacknation_hackathon.Er.Quality.{provisional_threshold, add_source, to_set, add_own}

-- No text occurs twice.
abbrev pub NoRepeat : List String → Type 0
NoRepeat [] = Unit
NoRepeat (x ∷ xs) = (contains x xs ≡ false) × NoRepeat xs

select_absent :
    (p : String → Bool) (x : String) (xs : List String)
    → contains x xs ≡ false
    → contains x (select p xs) ≡ false
select_absent p x [] h = refl
select_absent p x (y ∷ ys) h = ground (arith, select_absent p x ys)

pub select-NoRepeat : (p : String → Bool) (xs : List String) → NoRepeat xs → NoRepeat (select p xs)
select-NoRepeat p [] h = tt
select-NoRepeat p (x ∷ xs) (h, hs) = elim (Bool-cases (p x)) [
  | inl e ↦ rw e ((select_absent p x xs h, select-NoRepeat p xs hs))
  | inr e ↦ rw e (select-NoRepeat p xs hs)
]

add_source-NoRepeat : (x : String) (xs : List String) → NoRepeat xs → NoRepeat (add_source x xs)
unfolding add_source
add_source-NoRepeat x xs h = elim (Bool-cases (contains x xs)) [
  | inl e ↦ rw e h
  | inr e ↦ rw e ((e, h))
]

pub to_set-NoRepeat : (xs : List String) → NoRepeat (to_set xs)
unfolding to_set
to_set-NoRepeat [] = tt
to_set-NoRepeat (x ∷ xs) = add_source-NoRepeat x (to_set xs) (to_set-NoRepeat xs)

pub add_own-NoRepeat :
    (own : Option String) (xs : List String) → NoRepeat xs → NoRepeat (add_own own xs)
unfolding add_own
add_own-NoRepeat (some x) xs h = add_source-NoRepeat x xs h
add_own-NoRepeat none xs h = h

-- Two different texts that satisfy `P`.
abbrev pub IsTwo : (String → Type 0) → Type 0
IsTwo P = (a b : String) × (a == b ≡ false) × P a × P b

pub two_of :
    (P : String → Type 0) (xs : List String)
    → NoRepeat xs
    → All P xs
    → (ltb (length xs) provisional_threshold ≡ true) ⊎ IsTwo P
two_of P [] distinct h = inl refl
two_of P (a ∷ []) distinct h = inl refl
two_of P (a ∷ b ∷ rest) (fresh, distinct) (ha, (hb, h)) =
    inr ((b, a, ground (arith, fresh), hb, ha))

pub All_contained :
    (P : String → Type 0) (xs : List String)
    → ((x : String) → contains x xs ≡ true → P x)
    → All P xs
All_contained P [] h = tt
All_contained P (x ∷ xs) h =
    (h x (ground (arith, eq_refl x)), All_contained P xs (λ y e. h y (ground (arith, e))))

pub contains-to_set : (x : String) (xs : List String) → contains x (to_set xs) ≡ contains x xs
unfolding to_set add_source
contains-to_set x [] = refl
contains-to_set x (y ∷ ys) = ground (arith, contains-to_set x ys, contains-to_set y ys, eq_iff y x)

pub contains-add_own :
    (x : String) (own : Option String) (xs : List String)
    → contains x (add_own own xs) ≡ true
    → (own ≡ some x) ⊎ (contains x xs ≡ true)
unfolding add_own add_source
contains-add_own x none xs h = inr h
contains-add_own x (some y) xs h = elim (Bool-cases (y == x)) [
  | inl e ↦ inl (ap some (ground (arith, eq_iff y x)))
  | inr e ↦ inr (ground arith)
]

pub contains-select :
    (p : String → Bool) (x : String) (xs : List String)
    → p x ≡ true
    → contains x xs ≡ true
    → contains x (select p xs) ≡ true
contains-select p x [] hp h = cc
contains-select p x (y ∷ ys) hp h = elim (Bool-cases (y == x)) [
  | inl e ↦ ground (arith, eq_iff y x)
  | inr e ↦ ground (arith, contains-select p x ys hp)
]

pub contains_of_add_own :
    (x : String) (own : Option String) (xs : List String)
    → (own ≡ some x) ⊎ (contains x xs ≡ true)
    → contains x (add_own own xs) ≡ true
unfolding add_own add_source
contains_of_add_own x none xs (inl h) = cc
contains_of_add_own x none xs (inr h) = h
contains_of_add_own x (some y) xs (inl h) = ground (arith, eq_iff y x, some-injective h)
contains_of_add_own x (some y) xs (inr h) = ground arith

pub All_of_contains :
    (P : String → Type 0) (x : String) (xs : List String) → All P xs → contains x xs ≡ true → P x
All_of_contains P x [] h c = cc
All_of_contains P x (y ∷ ys) h c = elim (Bool-cases (y == x)) [
  | inl e ↦ subst P (let same : y ≡ x = ground (arith, eq_iff y x) in same) h.0
  | inr e ↦ All_of_contains P x ys h.1 (ground arith)
]
