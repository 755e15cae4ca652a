-- ===== src/App/Store/Refines.antt =====
-- app/store.py: FixtureStore as an implementation of tables that are functions from keys to rows.
use hacknation_hackathon.Base.{
  String, Bool, true, false, ◌≡◌, refl, sym, ap, ◌∙◌, subst, Option, none, some, List, [], ◌∷◌,
  ◌++◌, ◌==◌, find, or_else, Option-cases, is_some, All, ok, ok-injective, arith, eq_iff,
  Bool-cases, Option-cases, inl, inr, if◌then◌else◌,
}
use hacknation_hackathon.Base.Dict.{insert, get-insert_self, get-insert_other}
use hacknation_hackathon.Json.{Row}
use hacknation_hackathon.App.Store.{
  Key, key_eq, Bucket, lookup, put, Fixtures, Overlay, refusal, plain, row_key, bucket_of, put_all,
  upsert, overlaid, seen, added, table_rows,
}
use hacknation_hackathon.App.Store.Overlay.{key_eq_sound, key_eq_refl}

-- The abstract table.
abbrev pub Table : Type 0
Table = Key → Option Row

abbrev or_option : Option Row → Option Row → Option Row
or_option (some r) other = some r
or_option none other = other

-- Two keys that equal a third are equal.
key_eq_trans : (i j k : Key) → key_eq j k ≡ true → key_eq i k ≡ true → key_eq j i ≡ true
key_eq_trans i j k hj hi =
    subst (λ x. key_eq j x ≡ true) (key_eq_sound j k hj ∙ sym (key_eq_sound i k hi)) (key_eq_refl j)

lookup-put-at :
    (i k : Key) (r : Row) (bucket : Bucket)
    → lookup k (put i r bucket) ≡ (if key_eq i k then some r else lookup k bucket)
unfolding lookup put
lookup-put-at i k r [] = refl
lookup-put-at i k r ((j, old) ∷ bucket) = elim (Bool-cases (key_eq j i)) [
  | inl e ↦
      let same : key_eq j k ≡ key_eq i k = ap (λ x. key_eq x k) (key_eq_sound j i e) in
      rw e (ground (arith, same))
  | inr e ↦ rw e (ground (arith, e, key_eq_trans i j k, lookup-put-at i k r bucket))
]

find-append :
    (p : Row → Bool) (xs ys : List Row) → find p (xs ++ ys) ≡ or_option (find p xs) (find p ys)
find-append p [] ys = refl
find-append p (x ∷ xs) ys = elim (Bool-cases (p x)) [
  | inl e ↦ rw e refl
  | inr e ↦ rw e (find-append p xs ys)
]

module _ (fx : Fixtures) (keys : List String) where
  -- Each row stands under its own key.
  abbrev pub IsKeyed : Bucket → Type 0
  IsKeyed = All (λ ((k, r) : Key × Row). row_key fx r keys ≡ k)

  abbrev has_key : Key → Row → Bool
  has_key k r = key_eq (row_key fx r keys) k

  lookup-IsKeyed :
      (bucket : Bucket) (k : Key) {r : Row}
      → IsKeyed bucket
      → lookup k bucket ≡ some r
      → row_key fx r keys ≡ k
  unfolding lookup
  lookup-IsKeyed [] k h e = cc
  lookup-IsKeyed ((j, x) ∷ bucket) k h e = elim (Bool-cases (key_eq j k)) [
    | inl s ↦
        let found : ◌≡◌ {A = Option Row} (some x) (some _) = rw s at e in
        let held : x ≡ _ = cc in subst (λ y. row_key fx y keys ≡ k) held (h.0 ∙ key_eq_sound j k s)
    | inr s ↦ lookup-IsKeyed bucket k h.1 (rw s at e)
  ]

  put-IsKeyed :
      (r : Row) (bucket : Bucket) → IsKeyed bucket → IsKeyed (put (row_key fx r keys) r bucket)
  unfolding put
  put-IsKeyed r [] h = (refl, tt)
  put-IsKeyed r ((j, x) ∷ bucket) h = elim (Bool-cases (key_eq j (row_key fx r keys))) [
    | inl e ↦ rw e (sym (key_eq_sound j (row_key fx r keys) e), h.1)
    | inr e ↦ rw e (h.0, put-IsKeyed r bucket h.1)
  ]

  put_all-IsKeyed :
      (rows : List Row) (bucket : Bucket) → IsKeyed bucket → IsKeyed (put_all fx keys rows bucket)
  put_all-IsKeyed [] bucket h = h
  put_all-IsKeyed (row ∷ rows) bucket h =
      put_all-IsKeyed rows (put (row_key fx (plain fx row) keys) (plain fx row) bucket)
        (put-IsKeyed (plain fx row) bucket h)

  -- The write of the abstract table: at each key the last of the rows that have it.
  abbrev pub written : List Row → Table → Table
  written [] table k = table k
  written (row ∷ rows) table k =
      written rows (λ j. if has_key j (plain fx row) then some (plain fx row) else table j) k

  written-ext :
      (rows : List Row) (s t : Table) (k : Key) → s k ≡ t k → written rows s k ≡ written rows t k
  written-ext [] s t k e = e
  written-ext (row ∷ rows) s t k e =
      written-ext rows (λ j. if has_key j (plain fx row) then some (plain fx row) else s j)
        (λ j. if has_key j (plain fx row) then some (plain fx row) else t j) k (rw e refl)

  -- The row of the overlay, else that of the file.
  abbrev held : Bucket → Table → Table
  held bucket file k = or_option (lookup k bucket) (file k)

  held-put :
      (r : Row) (bucket : Bucket) (file : Table) (k : Key)
      → held (put (row_key fx r keys) r bucket) file k
        ≡ (if has_key k r then some r else held bucket file k)
  held-put r bucket file k =
      rw lookup-put-at (elim (Bool-cases (has_key k r)) [ inl e ↦ rw e refl | inr e ↦ rw e refl ])

  held-put_all :
      (rows : List Row) (bucket : Bucket) (file : Table) (k : Key)
      → held (put_all fx keys rows bucket) file k ≡ written rows (held bucket file) k
  held-put_all [] bucket file k = refl
  held-put_all (row ∷ rows) bucket file k =
      let next = put (row_key fx (plain fx row) keys) (plain fx row) bucket in
      held-put_all rows next file k
      ∙ written-ext rows (held next file)
          (λ j. if has_key j (plain fx row) then some (plain fx row) else held bucket file j) k
          (held-put (plain fx row) bucket file k)

  seen-find : (base : List Row) (k : Key) → seen fx keys k base ≡ is_some (find (has_key k) base)
  seen-find [] k = refl
  seen-find (r ∷ base) k = elim (Bool-cases (has_key k r)) [
    | inl e ↦ rw e refl
    | inr e ↦ rw e (seen-find base k)
  ]

  overlaid-head :
      (bucket : Bucket) (r : Row)
      → IsKeyed bucket
      → row_key fx (or_else (lookup (row_key fx r keys) bucket) r) keys ≡ row_key fx r keys
  overlaid-head bucket r h = elim (Option-cases (lookup (row_key fx r keys) bucket)) [
    | inl e ↦ rw e refl
    | inr (x, e) ↦ rw e (lookup-IsKeyed bucket (row_key fx r keys) h e)
  ]

  some_or_else :
      (o : Option Row) (r : Row) → ◌≡◌ {A = Option Row} (some (or_else o r)) (or_option o (some r))
  some_or_else none r = refl
  some_or_else (some x) r = refl

  find-overlaid :
      (bucket : Bucket) (base : List Row) (k : Key)
      → IsKeyed bucket
      → find (has_key k) (overlaid fx keys bucket base)
        ≡ (if seen fx keys k base then held bucket (λ j. find (has_key j) base) k else none)
  find-overlaid bucket [] k h = refl
  find-overlaid bucket (r ∷ base) k h =
      let top = or_else (lookup (row_key fx r keys) bucket) r in
      let same : has_key k top ≡ has_key k r = ap (λ x. key_eq x k) (overlaid-head bucket r h) in
      elim (Bool-cases (has_key k r)) [
        | inl e ↦
            let key : row_key fx r keys ≡ k = key_eq_sound (row_key fx r keys) k e in
            rw (same, e)
              (some_or_else (lookup (row_key fx r keys) bucket) r
                ∙ ap (λ j. or_option (lookup j bucket) (some r)) key)
        | inr e ↦ rw (same, e) (find-overlaid bucket base k h)
      ]

  find-added :
      (base : List Row) (bucket : Bucket) (k : Key)
      → IsKeyed bucket
      → find (has_key k) (added fx keys base bucket)
        ≡ (if seen fx keys k base then none else lookup k bucket)
  unfolding lookup
  find-added base [] k h = ground arith
  find-added base ((j, r) ∷ bucket) k h =
      let same : has_key k r ≡ key_eq j k = ap (λ x. key_eq x k) h.0 in
      let ih = find-added base bucket k h.1 in
      elim (Bool-cases (key_eq j k)) [
        | inl e ↦
            let alike : seen fx keys j base ≡ seen fx keys k base =
              ap (λ x. seen fx keys x base) (key_eq_sound j k e) in
            elim (Bool-cases (seen fx keys k base)) [
              | inl s ↦ rw (alike, s) (ih ∙ rw s refl)
              | inr s ↦ rw (alike, s, same, e) refl
            ]
        | inr e ↦ elim (Bool-cases (seen fx keys j base)) [
          | inl s ↦ rw (s, e) ih
          | inr s ↦ rw (s, same, e) ih
        ]
      ]

  -- The row that the table shows for a key.
  find-table :
      (bucket : Bucket) (base : List Row) (k : Key)
      → IsKeyed bucket
      → find (has_key k) (overlaid fx keys bucket base ++ added fx keys base bucket)
        ≡ held bucket (λ j. find (has_key j) base) k
  find-table bucket base k h =
      rw (find-append, find-overlaid bucket base k h, find-added base bucket k h, seen-find)
        (cases (lookup k bucket) (find (has_key k) base))
    where
      cases :
          (l f : Option Row)
          → or_option (if is_some f then or_option l f else none) (if is_some f then none else l)
            ≡ or_option l f
      cases none none = refl
      cases none (some r) = refl
      cases (some x) none = refl
      cases (some x) (some r) = refl

module _ (fx : Fixtures) where
  -- What the store shows of a table.
  abbrev pub shown : String → Overlay → Table
  shown table overlay k =
      find (λ r. key_eq (row_key fx r (fx.primary_key table)) k) (table_rows fx table overlay)

  -- Every bucket of the overlay has its rows under their own keys: so it is when the store starts.
  abbrev pub IsStore : Overlay → Type 0
  IsStore overlay =
      (table : String) → IsKeyed fx (fx.primary_key table) (bucket_of fx overlay table)

  shown-held :
      (table : String) (overlay : Overlay) (k : Key)
      → IsStore overlay
      → shown table overlay k
        ≡ held fx
            (fx.primary_key table)
            (bucket_of fx overlay table)
            (λ j. find (λ r. key_eq (row_key fx r (fx.primary_key table)) j) (fx.load_table table))
            k
  unfolding table_rows
  shown-held table overlay k h =
      find-table fx (fx.primary_key table) (bucket_of fx overlay table) (fx.load_table table) k
        (h table)

  module _ (table : String) (rows : List Row) (overlay : Overlay) where
    abbrev after_upsert : Overlay
    after_upsert =
        insert table (put_all fx (fx.primary_key table) rows (bucket_of fx overlay table)) overlay

    after_upsert-IsStore : IsStore overlay → IsStore after_upsert
    after_upsert-IsStore h other = elim (Bool-cases (table == other)) [
      | inl e ↦
          let same : table ≡ other = ground (arith, eq_iff table other, e) in
          subst (λ t. IsKeyed fx (fx.primary_key t) (bucket_of fx after_upsert t)) same
            (rw get-insert_self (
              put_all-IsKeyed fx (fx.primary_key table) rows (bucket_of fx overlay table)
                (h table)))
      | inr e ↦ rw (get-insert_other table other _ overlay e) (h other)
    ]

    upsert-after :
        {after : Overlay} → upsert fx table rows overlay ≡ ok after → after_upsert ≡ after
    unfolding upsert
    upsert-after h = elim (Option-cases (refusal fx table)) [
      | inr (refused, e) ↦ absurd (let k = rw (upsert, e) at h in cc)
      | inl e ↦ ok-injective (rw (upsert, e) at h)
    ]

    shown-after_upsert :
        IsStore overlay
        → (k : Key)
        → shown table after_upsert k
          ≡ written fx (fx.primary_key table) rows (shown table overlay) k
    shown-after_upsert h k =
        let keys = fx.primary_key table in
        let file : Table = λ j. find (λ r. key_eq (row_key fx r keys) j) (fx.load_table table) in
        let bucket = bucket_of fx overlay table in
        shown-held table after_upsert k (after_upsert-IsStore h)
        ∙ ap (λ b. held fx keys b file k)
            (ap (λ o. or_else o []) (get-insert_self table (put_all fx keys rows bucket) overlay))
        ∙ held-put_all fx keys rows bucket file k
        ∙ written-ext fx keys rows (held fx keys bucket file) (shown table overlay) k
            (sym (shown-held table overlay k h))

    other_tables :
        (other : String)
        → table == other ≡ false
        → table_rows fx other after_upsert ≡ table_rows fx other overlay
    unfolding table_rows
    other_tables other e = rw (get-insert_other table other _ overlay e) refl

    shown_everywhere :
        IsStore overlay
        → (other : String) (k : Key)
        → shown other after_upsert k ≡ (
            if table == other
            then written fx (fx.primary_key table) rows (shown table overlay) k
            else shown other overlay k)
    shown_everywhere h other k = elim (Bool-cases (table == other)) [
      | inl e ↦
          let same : table ≡ other = ground (arith, eq_iff table other, e) in
          rw e (ap (λ t. shown t after_upsert k) (sym same) ∙ shown-after_upsert h k)
      | inr e ↦ rw e (
          ap (λ (rs : List Row). find (λ r. key_eq (row_key fx r (fx.primary_key other)) k) rs)
            (other_tables other e))
    ]

    -- On an overlay whose rows stand under their own keys, a write that ends well leaves them so
    -- and is the write of a table as a function from keys to rows: each key of the table shows the
    -- last of the written rows that have it, in its plain JSON form, and what it showed before if
    -- none has; other tables show what they did.
    pub upsert-refines :
        {after : Overlay}
        → IsStore overlay
        → upsert fx table rows overlay ≡ ok after
        → IsStore after
          × ((other : String) (k : Key)
              → shown other after k ≡ (
                  if table == other
                  then written fx (fx.primary_key table) rows (shown table overlay) k
                  else shown other overlay k))
    upsert-refines {after} h e =
        subst
          (λ o.
            IsStore o
            × ((other : String) (k : Key)
                → shown other o k ≡ (
                    if table == other
                    then written fx (fx.primary_key table) rows (shown table overlay) k
                    else shown other overlay k)))
          (upsert-after e) (after_upsert-IsStore h, shown_everywhere h)
