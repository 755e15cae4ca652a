-- ===== src/Tools/Erasure/Suppression.antt =====
-- tools/erase_person.py with the filter of er/normalize.py: an erased identity does not come back.
use hacknation_hackathon.Base.{
  ℕ, String, ◌≡◌, refl, sym, ap, ◌∙◌, subst, Bool, true, false, not, ◌&&◌, ◌||◌, inl, inr, List, [],
  ◌∷◌, ◌++◌, map, arith, ◌==◌, eq_iff, eq_refl, any, select, find, contains, All, All-select,
  Bool-cases, Option-cases, ok, >>=-eq-ok, ok-injective,
}
use hacknation_hackathon.Base.Dict.{get}
use hacknation_hackathon.Base.Sort.{sort_by, insert_by}
use hacknation_hackathon.Json.{Row}
use hacknation_hackathon.Er.Normalize.{
  PersonSourceRecord, column_text, suppressed_keys, is_member, apply_suppression,
}
use hacknation_hackathon.Tools.Erasure.{
  Tables, rows_of, ErasurePlan, Interpreter, column_is, person_links, linked_ids, person_psrs,
  suppression_row, suppression_rows, by_record, deletes_of, tombstone, planned, plan_erasure,
}
use mathlib.Core.List.{Memᴰ}

module _ {ℓ} {A : Type ℓ} (p : A → Bool) where
  any-split : (xs ys : List A) → any p (xs ++ ys) ≡ (any p xs || any p ys)
  any-split [] ys = refl
  any-split (x ∷ xs) ys = ground (arith, any-split xs ys)

  any-insert_by :
      (less : A → A → Bool) (x : A) (xs : List A) → any p (insert_by less x xs) ≡ (p x || any p xs)
  unfolding insert_by
  any-insert_by less x [] = refl
  any-insert_by less x (y ∷ ys) = ground (arith, any-insert_by less x ys)

  any-sort_by : (less : A → A → Bool) (xs : List A) → any p (sort_by less xs) ≡ any p xs
  unfolding sort_by
  any-sort_by less [] = refl
  any-sort_by less (x ∷ xs) =
      any-insert_by less x (sort_by less xs) ∙ ap (λ b. p x || b) (any-sort_by less xs)

any-map {ℓ κ} :
    {A : Type ℓ} {B : Type κ} (p : B → Bool) (f : A → B) (xs : List A)
    → any p (map f xs) ≡ any (λ x. p (f x)) xs
any-map p f [] = refl
any-map p f (x ∷ xs) = ap (λ b. p (f x) || b) (any-map p f xs)

any-imp {ℓ} :
    {A : Type ℓ} (p q : A → Bool)
    → ((x : A) → p x ≡ true → q x ≡ true)
    → (xs : List A) → any p xs ≡ true
    → any q xs ≡ true
any-imp p q f [] h = h
any-imp p q f (x ∷ xs) h = elim (Bool-cases (p x)) [
  | inl e ↦ let k = f x e in ground (arith, k)
  | inr e ↦ let k = any-imp p q f xs in ground (arith, k, h, e)
]

any-select :
    (p c : Row → Bool) (x : Row) (xs : List Row)
    → Memᴰ x xs
    → c x ≡ true
    → p x ≡ true
    → any p (select c xs) ≡ true
any-select p c x [] m hc hp = elim m [ ]
any-select p c x (y ∷ ys) (Memᴰ.head e) hc hp =
    let kc = ap c (sym e) ∙ hc in let kp = ap p (sym e) ∙ hp in ground (arith, kc, kp)
any-select p c x (y ∷ ys) (Memᴰ.tail m) hc hp = ground (arith, any-select p c x ys m hc hp)

module _ (py : Interpreter) where
  abbrev text : Row → String → String
  text = column_text py.show_value

  same_hash :
      (s k : String) (row : Row)
      → (text row "source" == s && text row "source_key" == k) ≡ true
      → (text row "source" == s && py.sha256 (text row "source_key") == py.sha256 k) ≡ true
  same_hash s k row h =
      let key : text row "source_key" ≡ k = ground (arith, eq_iff (text row "source_key") k, h) in
      let hash : py.sha256 (text row "source_key") == py.sha256 k ≡ true =
        ap (λ x. py.sha256 x == py.sha256 k) key ∙ eq_refl (py.sha256 k) in
      ground (arith, h, hash)

  -- The rows that a plan suppresses hold the identity of each record of the links.
  suppressed-is_member :
      (now : ℕ) (before psrs : List Row) (s k : String)
      → any (λ row. text row "source" == s && text row "source_key" == k) psrs ≡ true
      → is_member
          (s, py.sha256 k)
          (suppressed_keys py.show_value (before ++ suppression_rows py now psrs))
        ≡ true
  unfolding suppressed_keys suppression_rows suppression_row get
  suppressed-is_member now before psrs s k h =
      let hash = py.sha256 k in
      let q : Row → Bool = λ row. text row "source" == s && text row "source_key_hash" == hash in
      let add : Row → Row = suppression_row py now in
      let sorted_psrs = sort_by (by_record py) psrs in
      let here : any (λ row. q (add row)) psrs ≡ true =
        any-imp (λ row. text row "source" == s && text row "source_key" == k) (λ row. q (add row))
          (same_hash s k) psrs h in
      let there : any q (map add sorted_psrs) ≡ true =
        any-map q add sorted_psrs ∙ any-sort_by (λ row. q (add row)) (by_record py) psrs ∙ here in
      any-map (λ ((c, d) : String × String). c == s && d == hash)
        (λ row. (text row "source", text row "source_key_hash")) (before ++ map add sorted_psrs)
      ∙ any-split q before (map add sorted_psrs)
      ∙ ground (arith, there)

  -- The record of a link of the person, by its identity.
  plan_suppresses :
      (person_id : String) (tables : Tables) (scope : String) (now : ℕ) (actor erasure_id : String)
      {plan : ErasurePlan}
      → plan_erasure py person_id tables scope now actor erasure_id ≡ ok plan
      → rows_of plan.upserts "ops.erasure_suppression"
        ≡ suppression_rows py now
            (person_psrs py tables (linked_ids (person_links tables person_id)))
  unfolding plan_erasure planned get
  plan_suppresses person_id tables scope now actor erasure_id h =
      elim (Option-cases
        (find (λ row. column_is row "person_id" person_id) (rows_of tables "silver.person"))) [
          | inl e ↦ absurd (let k = rw (plan_erasure, e) at h in cc)
          | inr (person_row, e) ↦
              let psr_ids = linked_ids (person_links tables person_id) in
              let (deletes, _, h1) =
                >>=-eq-ok (deletes_of py person_id psr_ids (person_psrs py tables psr_ids)) _
                  (rw (plan_erasure, e) at h) in
              let (stone, _, h2) = >>=-eq-ok (tombstone py person_row now) _ h1 in
              ap (λ (plan : ErasurePlan). rows_of plan.upserts "ops.erasure_suppression")
                (sym (ok-injective h2))
        ]

  filtered :
      (records : List PersonSourceRecord) (keys : List (String × String)) (s k : String)
      → is_member (s, py.sha256 k) keys ≡ true
      → All
          (λ r. (r.source == s && r.source_key == k) ≡ false)
          (apply_suppression py.sha256 records keys)
  unfolding apply_suppression
  filtered records keys s k h =
      All-select (λ r. (r.source == s && r.source_key == k) ≡ false)
        (λ r. not (is_member (r.source, py.sha256 r.source_key) keys)) records (each records)
    where
      each :
          (rs : List PersonSourceRecord)
          → All
              (λ r.
                not (is_member (r.source, py.sha256 r.source_key) keys) ≡ true
                → (r.source == s && r.source_key == k) ≡ false)
              rs
      each [] = tt
      each (r ∷ rs) = (
        λ kept. elim (Bool-cases (r.source == s && r.source_key == k)) [
          | inr e ↦ e
          | inl e ↦
              let source : r.source ≡ s = ground (arith, eq_iff r.source s, e) in
              let key : r.source_key ≡ k = ground (arith, eq_iff r.source_key k, e) in
              let found : is_member (r.source, py.sha256 r.source_key) keys ≡ true =
                (λ i. is_member (source i, py.sha256 (key i)) keys) ∙ h in
              ground (arith, found, kept)
        ],
        each rs,
      )

  -- If the erasure of a person is planned, then for every record of the tables that a link of the
  -- person names, no record of its source and source key passes the suppression filter of the
  -- normalization once the suppression rows of the plan are stored, whatever was stored before and
  -- whatever is scraped later.
  pub plan_erasure-suppresses :
      (person_id : String) (tables : Tables) (scope : String) (now : ℕ) (actor erasure_id : String)
      {plan : ErasurePlan}
      → plan_erasure py person_id tables scope now actor erasure_id ≡ ok plan
      → (row : Row) → Memᴰ row (rows_of tables "silver.person_source_record")
      → contains
          (column_text py.show_value row "source_record_id")
          (linked_ids (person_links tables person_id))
        ≡ true
      → (before : List Row) (records : List PersonSourceRecord)
      → All
          (λ r.
            (r.source == column_text py.show_value row "source"
              && r.source_key == column_text py.show_value row "source_key")
            ≡ false)
          (apply_suppression py.sha256 records (
            suppressed_keys py.show_value
              (before ++ rows_of plan.upserts "ops.erasure_suppression")))
  unfolding person_psrs
  plan_erasure-suppresses person_id tables scope now actor erasure_id {plan} h row m linked before
        records =
      let s = text row "source" in
      let k = text row "source_key" in
      let ids = linked_ids (person_links tables person_id) in
      let psrs = person_psrs py tables ids in
      let there : any (λ x. text x "source" == s && text x "source_key" == k) psrs ≡ true =
        any-select (λ x. text x "source" == s && text x "source_key" == k)
          (λ x. contains (text x "source_record_id") ids) row
          (rows_of tables "silver.person_source_record") m linked
          (ground (arith, eq_refl s, eq_refl k)) in
      subst
        (λ rows.
          All (λ r. (r.source == s && r.source_key == k) ≡ false)
            (apply_suppression py.sha256 records (suppressed_keys py.show_value (before ++ rows))))
        (sym (plan_suppresses person_id tables scope now actor erasure_id h))
        (filtered records (suppressed_keys py.show_value (before ++ suppression_rows py now psrs)) s
          k (suppressed-is_member now before psrs s k there))
