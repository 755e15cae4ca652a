-- ===== src/App/Store/Overlay.antt =====
-- What a write to the fixture store reads back as.
use hacknation_hackathon.Base.{
  String, Bool, true, false, ◌||◌, ◌≡◌, refl, sym, ◌∙◌, subst, Option, some, none, List, [], ◌∷◌,
  ◌++◌, ◌==◌, any, Result, ok, err, ok-injective, arith, eq_iff, eq_refl, Bool-cases, inl, inr,
}
use hacknation_hackathon.Base.Dict.{insert, get-insert_self}
use hacknation_hackathon.Json.{Row}
use hacknation_hackathon.App.Store.{
  StoreError, Key, key_eq, Bucket, lookup, put, Fixtures, Overlay, plain, row_key, bucket_of,
  upsert, overlaid, seen, added, table_rows, refusal,
}

pub key_eq_sound : (a b : Key) → key_eq a b ≡ true → a ≡ b
key_eq_sound [] [] h = refl
key_eq_sound [] (b ∷ bs) h = cc
key_eq_sound (a ∷ s) [] h = cc
key_eq_sound (a ∷ s) (b ∷ bs) h =
    let first : a ≡ b = ground (arith, eq_iff a b) in
    let rest = key_eq_sound s bs (ground arith) in λ i. first i ∷ rest i

pub key_eq_refl : (a : Key) → key_eq a a ≡ true
key_eq_refl [] = refl
key_eq_refl (a ∷ s) = ground (arith, eq_iff a a, key_eq_refl s)

lookup-put : (key : Key) (row : Row) (bucket : Bucket) → lookup key (put key row bucket) ≡ some row
unfolding lookup put
lookup-put key row [] = rw (key_eq_refl key) refl
lookup-put key row ((k, old) ∷ bucket) = elim (Bool-cases (key_eq k key)) [
  | inl e ↦ rw e (rw e refl)
  | inr e ↦ rw e (rw e (lookup-put key row bucket))
]

any-append : (p : Row → Bool) (xs ys : List Row) → any p (xs ++ ys) ≡ (any p xs || any p ys)
any-append p [] ys = refl
any-append p (x ∷ xs) ys = ground (arith, any-append p xs ys)

module _ (fx : Fixtures) (keys : List String) (key : Key) (row : Row) (p : Row → Bool)
    (hp : p row ≡ true) where
  any-overlaid :
      (bucket : Bucket) (base : List Row)
      → lookup key bucket ≡ some row
      → seen fx keys key base ≡ true
      → any p (overlaid fx keys bucket base) ≡ true
  any-overlaid bucket (r ∷ rs) found h = elim (Bool-cases (key_eq (row_key fx r keys) key)) [
    | inl e ↦ rw (key_eq_sound (row_key fx r keys) key e) (rw found (rw hp refl))
    | inr e ↦ let ih = any-overlaid bucket rs found (ground (arith, h, e)) in ground (arith, ih)
  ]
  any-overlaid bucket [] found h = cc

  any-added :
      (base : List Row) (bucket : Bucket)
      → lookup key bucket ≡ some row
      → seen fx keys key base ≡ false
      → any p (added fx keys base bucket) ≡ true
  unfolding lookup
  any-added base [] found h = cc
  any-added base ((k, r) ∷ bucket) found h = elim (Bool-cases (key_eq k key)) [
    | inl e ↦
        let same : k ≡ key = key_eq_sound k key e in
        let unseen : seen fx keys k base ≡ false =
          subst (λ x. seen fx keys x base ≡ false) (sym same) h in
        let some_row : ◌≡◌ {A = Option Row} (some r) (some row) = rw e at found in
        let held : r ≡ row = cc in
        let pr : p r ≡ true = subst (λ x. p x ≡ true) (sym held) hp in rw unseen (rw pr refl)
    | inr e ↦
        let later : lookup key bucket ≡ some row = rw e at found in
        let ih = any-added base bucket later h in
        elim (Bool-cases (seen fx keys k base)) [
          | inl s ↦ rw s ih
          | inr s ↦ rw s (ground (arith, ih))
        ]
  ]

  reads_back :
      (bucket : Bucket) (base : List Row)
      → any p
          (overlaid fx keys (put key row bucket) base ++ added fx keys base (put key row bucket))
        ≡ true
  reads_back bucket base =
      let held = lookup-put key row bucket in
      let front = overlaid fx keys (put key row bucket) base in
      let back = added fx keys base (put key row bucket) in
      any-append p front back ∙ elim (Bool-cases (seen fx keys key base)) [
        | inl s ↦ let hit = any-overlaid (put key row bucket) base held s in ground (arith, hit)
        | inr s ↦ let hit = any-added base (put key row bucket) held s in ground (arith, hit)
      ]

-- The row of a write of one row is, in its plain JSON form, among the rows of the table, whether the
-- fixture file has a row of its key or not.
pub upsert-reads_back :
    (fx : Fixtures) (table : String) (row : Row) (overlay : Overlay) {after : Overlay}
    → upsert fx table (row ∷ []) overlay ≡ ok after
    → (p : Row → Bool) → p (plain fx row) ≡ true
    → any p (table_rows fx table after) ≡ true
unfolding upsert table_rows
upsert-reads_back fx table row overlay {after} h p hp = go (refusal fx table) h
  where
    keys : List String
    keys = fx.primary_key table

    key : Key
    key = row_key fx (plain fx row) keys

    bucket : Bucket
    bucket = put key (plain fx row) (bucket_of fx overlay table)

    go :
        (o : Option StoreError)
        → elim o [ some e ↦ err e | none ↦ ok (insert table bucket overlay) ] ≡ ok after
        → any p (table_rows fx table after) ≡ true
    go (some refused) e = cc
    go none e =
        subst (λ o. any p (table_rows fx table o) ≡ true) (ok-injective e)
          (rw get-insert_self (
            reads_back fx keys key (plain fx row) p hp (bucket_of fx overlay table)
              (fx.load_table table)))

put-put :
    (key : Key) (row : Row) (bucket : Bucket)
    → put key row (put key row bucket) ≡ put key row bucket
unfolding put
put-put key row [] = rw (key_eq_refl key) refl
put-put key row ((k, old) ∷ bucket) = elim (Bool-cases (key_eq k key)) [
  | inl e ↦ rw e (rw e refl)
  | inr e ↦ rw e (rw e (λ i. (k, old) ∷ put-put key row bucket i))
]

insert-insert : (k : String) (v w : Bucket) (d : Overlay) → insert k v (insert k w d) ≡ insert k v d
unfolding insert
insert-insert k v w [] = rw (eq_refl k) refl
insert-insert k v w ((j, u) ∷ d) = elim (Bool-cases (j == k)) [
  | inl e ↦ rw e (rw e refl)
  | inr e ↦ rw e (rw e (λ i. (j, u) ∷ insert-insert k v w d i))
]

-- A write of one row that ends well is idempotent: a second write of the same row ends well and
-- changes nothing.
pub upsert-eq-same :
    (fx : Fixtures) (table : String) (row : Row) (overlay : Overlay) {after : Overlay}
    → upsert fx table (row ∷ []) overlay ≡ ok after
    → upsert fx table (row ∷ []) after ≡ ok after
unfolding upsert
upsert-eq-same fx table row overlay {after} h = go (refusal fx table) h
  where
    keys : List String
    keys = fx.primary_key table

    key : Key
    key = row_key fx (plain fx row) keys

    again : Overlay → Overlay
    again o = insert table (put key (plain fx row) (bucket_of fx o table)) o

    twice : again (again overlay) ≡ again overlay
    twice = rw get-insert_self (rw put-put (insert-insert table _ _ overlay))

    go :
        (o : Option StoreError)
        → elim o [ some e ↦ err e | none ↦ ok (again overlay) ] ≡ ok after
        → elim o [ some e ↦ err e | none ↦ ok (again after) ] ≡ ok after
    go (some refused) e = cc
    go none e =
        let same : again overlay ≡ after = ok-injective e in
        subst (λ o. ◌≡◌ {A = Result StoreError Overlay} (ok (again o)) (ok o)) same
          (λ i. ok (twice i))
