-- ===== src/Base/Raise.antt =====
-- A call that may raise: its value, or the exception.
use mathlib.Core.Path.{◌≡◌, refl}
use mathlib.Core.Logic.{◌⊎◌, inl, inr}
use mathlib.Core.Option.{Option, none, some}

pub data Result (E A : Type 0) : Type 0 where
  ok : A → Result E A
  err : E → Result E A

module _ {E : Type 0} where
  -- `if x is None: raise e`
  abbrev pub or_raise : {A : Type 0} → Option A → E → Result E A
  or_raise (some a) e = ok a
  or_raise none e = err e

  infixl 5 ◌>>=◌
  abbrev pub ◌>>=◌ : {A B : Type 0} (call : Result E A) (next : A → Result E B) → Result E B
  err raised >>= next = err raised
  ok value >>= next = next value

  -- The calls of a sequence that returned, each with what it returned.
  pub >>=-eq-ok :
      {A B : Type 0} (call : Result E A) (next : A → Result E B) {out : B}
      (h : (call >>= next) ≡ ok out)
      → (value : A) × (call ≡ ok value) × (next value ≡ ok out)
  >>=-eq-ok (err raised) next h = cc
  >>=-eq-ok (ok value) next h = (value, refl, h)

  infixl 5 ◌>>◌
  abbrev pub ◌>>◌ : {A B : Type 0} (call : Result E A) (next : Result E B) → Result E B
  call >> next = call >>= λ unused. next

pub ok-injective : {E A : Type 0} {a b : A} → ◌≡◌ {A = Result E A} (ok a) (ok b) → a ≡ b
ok-injective h = cc

pub err-injective : {E A : Type 0} {d e : E} → ◌≡◌ {A = Result E A} (err d) (err e) → d ≡ e
err-injective h = cc

pub Result-cases :
    {F A : Type 0} (r : Result F A) → ((a : A) × (r ≡ ok a)) ⊎ ((e : F) × (r ≡ err e))
Result-cases (ok a) = inl (a, refl)
Result-cases (err e) = inr (e, refl)
