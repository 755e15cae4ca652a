-- ===== src/Base/Dict.antt =====
-- Python's `dict` with text keys, in insertion order.
use Prim.Native.Nat.{◌+◌}
use Prim.Native.String.{String}
use mathlib.Core.Bool.{false}
use mathlib.Core.Path.{◌≡◌, refl}
use mathlib.Core.Option.{Option, none, some}
use mathlib.Core.List.{List, [], ◌∷◌, ◌++◌}
use native.Mathlib.Omega.{arith}
use text.Mathlib.Text.{◌==◌}
use text.Mathlib.TextEquality.{eq_iff}
use text.Mathlib.TextPositions.{eq_refl}
use hacknation_hackathon.Base.Tests.{is_some, if◌then◌else◌}
use hacknation_hackathon.Base.Lists.{contains, count}

abbrev pub Dict {ℓ} : Type ℓ → Type ℓ
Dict V = List (String × V)

module _ {ℓ} {V : Type ℓ} where
  -- `d.get(k)`
  unfoldable pub get : Dict V → String → Option V
  get [] k = none
  get ((j, v) ∷ d) k = if j == k then some v else get d k

  -- `d[k] = v`: a known key keeps its place
  unfoldable pub insert : String → V → Dict V → Dict V
  insert k v [] = (k, v) ∷ []
  insert k v ((j, w) ∷ d) = if j == k then (j, v) ∷ d else (j, w) ∷ insert k v d

  -- `d.pop(k, None)`, `del d[k]`
  unfoldable pub remove : String → Dict V → Dict V
  remove k [] = []
  remove k ((j, v) ∷ d) = let rest = remove k d in if j == k then rest else (j, v) ∷ rest

  -- `d.setdefault(k, v)`
  unfoldable pub setdefault : String → V → Dict V → Dict V
  setdefault k v d = elim (get d k) [ none ↦ insert k v d | some _ ↦ d ]

  abbrev pub keys : Dict V → List String
  keys [] = []
  keys ((k, v) ∷ d) = k ∷ keys d

  abbrev pub values : Dict V → List V
  values [] = []
  values ((k, v) ∷ d) = v ∷ values d

  pub get-insert :
      (k j : String) (v : V) (d : Dict V)
      → get (insert k v d) j ≡ (if k == j then some v else get d j)
  unfolding get insert
  get-insert k j v [] = refl
  get-insert k j v ((i, w) ∷ d) =
      ground (arith, eq_iff k j, eq_iff i k, eq_iff i j, get-insert k j v d)

  pub get-insert_self : (k : String) (v : V) (d : Dict V) → get (insert k v d) k ≡ some v
  get-insert_self k v d = simp (get-insert, eq_refl)

  pub get-insert_other :
      (k j : String) (v : V) (d : Dict V) → k == j ≡ false → get (insert k v d) j ≡ get d j
  get-insert_other k j v d h = rw get-insert (rw h refl)

  pub get-remove :
      (k j : String) (d : Dict V) → get (remove k d) j ≡ (if k == j then none else get d j)
  unfolding get remove
  get-remove k j [] = ground arith
  get-remove k j ((i, v) ∷ d) = ground (arith, get-remove k j d, eq_iff i k, eq_iff i j, eq_iff k j)

  pub get-eq-none : (k : String) (d : Dict V) → contains k (keys d) ≡ false → get d k ≡ none
  unfolding get
  get-eq-none k [] h = refl
  get-eq-none k ((j, v) ∷ d) h = ground (arith, get-eq-none k d)

  -- A new key goes to the end.
  pub insert_new :
      (k : String) (v : V) (d : Dict V)
      → contains k (keys d) ≡ false
      → insert k v d ≡ d ++ (k, v) ∷ []
  unfolding insert
  insert_new k v [] h = refl
  insert_new k v ((j, w) ∷ d) h = ground (arith, insert_new k v d)

  pub keys-append : (d e : Dict V) → keys (d ++ e) ≡ keys d ++ keys e
  keys-append [] e = refl
  keys-append ((k, v) ∷ d) e = λ i. k ∷ keys-append d e i

  pub values-append : (d e : Dict V) → values (d ++ e) ≡ values d ++ values e
  values-append [] e = refl
  values-append ((k, v) ∷ d) e = λ i. v ∷ values-append d e i

  -- An assignment adds its key once, if it was not there.
  pub count-keys-insert :
      (a k : String) (v : V) (d : Dict V)
      → count a (keys (insert k v d)) ≡ (
          if k == a
          then (if is_some (get d a) then count a (keys d) else 1 + count a (keys d))
          else count a (keys d))
  unfolding insert get
  count-keys-insert a k v [] = ground (arith, eq_iff k a)
  count-keys-insert a k v ((j, w) ∷ d) =
      ground (arith, eq_iff j k, eq_iff j a, eq_iff k a, count-keys-insert a k v d)

  pub ruleset dict_laws = (get-insert, get-remove)

-- Each key occurs once: what makes an association list a dict.
abbrev pub IsDict {ℓ} : {V : Type ℓ} → Dict V → Type 0
IsDict d = (a : String) → count a (keys d) ≡ (if is_some (get d a) then 1 else 0)

pub insert-IsDict {ℓ} :
    {V : Type ℓ} (k : String) (v : V) (d : Dict V) → IsDict d → IsDict (insert k v d)
insert-IsDict k v d h a = rw (count-keys-insert, get-insert) (ground (arith, h a, eq_iff k a))
