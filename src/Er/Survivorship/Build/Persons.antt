-- ===== src/Er/Survivorship/Build/Persons.antt =====
-- er/survivorship.py: which rows stage 5 writes, one per person with a linked record, and the fact rows
-- whose person changed.
use hacknation_hackathon.Base.{
  some-injective, ℕ, String, subst, All-imp, ◌⊎◌, ◌≡◌, refl, sym, ap, ◌∙◌, Bool, true, false, ◌||◌,
  Option, none, some, List, [], ◌∷◌, ◌++◌, map, ◌==◌, eq_iff, arith, any, count, is_some, or_else,
  All, All-append, Bool-cases, Option-cases, inl, inr, ok, >>=-eq-ok, ok-injective, if◌then◌else◌,
}
use hacknation_hackathon.Base.Dict.{
  Dict, get, keys, IsDict, get-insert, insert-IsDict, get-insert_self, get-insert_other,
}
use hacknation_hackathon.Base.Sort.{sorted, count-sorted}
use hacknation_hackathon.Json.{
  Json, null, bool, int, float, str, datetime, arr, obj, Row, get_str, read, as_str,
}
use mathlib.Core.List.{Memᴰ}
use mathlib.Core.List.Memᴰ
use hacknation_hackathon.Er.Models.{PsrView, psr_view}
use hacknation_hackathon.Er.Adjudicate.{Services}
use hacknation_hackathon.Er.Survivorship.{Numbers, FieldConflict, hacknation_cv_urls, ranked_views}
use hacknation_hackathon.Er.Survivorship.Build.{
  headline, person_row, build_person, add_view, views_by_person, created_times, build_each,
  build_persons, backfill_row, person_of_row, backfill_person_id, with_person, differs,
}

-- 1 if the text is the value.
abbrev names : Option String → String → Bool
names (some q) p = q == p
names none p = false

abbrev pub person_ids : List Row → List (Option String)
person_ids rows = map (λ r. get_str r "person_id") rows

module _ (numbers : Numbers) {E S : Type 0} (services : Services E S) where
  add_view-IsDict :
      (person : Option String) (view : PsrView) (d : Dict (List PsrView))
      → IsDict d
      → IsDict (add_view numbers services person view d)
  unfolding add_view
  add_view-IsDict (some p) view d h = insert-IsDict p (or_else (get d p) [] ++ view ∷ []) d h
  add_view-IsDict none view d h = h

  views_by_person-IsDict :
      (rows : List Row) (links : Dict String) (d : Dict (List PsrView))
      → IsDict d
      → IsDict (views_by_person numbers services rows links d)
  unfolding views_by_person
  views_by_person-IsDict [] links d h = h
  views_by_person-IsDict (row ∷ rows) links d h =
      let view = psr_view numbers.isoformat row in
      let person = get links view.source_record_id in
      views_by_person-IsDict rows links (add_view numbers services person view d)
        (add_view-IsDict person view d h)

  -- A record of the rows is linked to the person.
  abbrev pub linked_to : Dict String → String → Row → Bool
  linked_to links p row = names (get links (psr_view numbers.isoformat row).source_record_id) p

  add_view-known :
      (person : Option String) (view : PsrView) (d : Dict (List PsrView)) (p : String)
      → is_some (get (add_view numbers services person view d) p)
        ≡ (is_some (get d p) || names person p)
  unfolding add_view
  add_view-known (some q) view d p = rw get-insert (ground (arith, eq_iff q p))
  add_view-known none view d p = ground arith

  views_by_person-known :
      (rows : List Row) (links : Dict String) (d : Dict (List PsrView)) (p : String)
      → is_some (get (views_by_person numbers services rows links d) p)
        ≡ (is_some (get d p) || any (linked_to links p) rows)
  unfolding views_by_person
  views_by_person-known [] links d p = ground arith
  views_by_person-known (row ∷ rows) links d p =
      let view = psr_view numbers.isoformat row in
      let person = get links view.source_record_id in
      views_by_person-known rows links (add_view numbers services person view d) p
      ∙ ap (λ b. b || any (linked_to links p) rows) (add_view-known person view d p)
      ∙ or_assoc (is_some (get d p)) (names person p) (any (linked_to links p) rows)
    where
      or_assoc : (a b c : Bool) → ((a || b) || c) ≡ (a || (b || c))
      or_assoc true b c = refl
      or_assoc false b c = refl

  build_person-id :
      (person : String) (views : List PsrView) (users : List Row) (cvs : Dict String)
      (created : Option ℕ) (s : S) {r : (Row × List FieldConflict) × S}
      → build_person numbers services person views users cvs created s ≡ ok r
      → get_str r.0.0 "person_id" ≡ some person
  unfolding build_person person_row get
  build_person-id person views users cvs created s h =
      let (now, s') = services.clock s in
      let (line, _, e) = >>=-eq-ok (headline numbers services person (ranked_views views) s') _ h in
      ap (λ (r : (Row × List FieldConflict) × S). get_str r.0.0 "person_id") (sym (ok-injective e))

  build_each-ids :
      (by_person : Dict (List PsrView)) (users : List Row) (cvs : Dict String) (created : Dict ℕ)
      (people : List String) (s : S) {r : (List Row × List FieldConflict) × S}
      → build_each numbers services by_person users cvs created people s ≡ ok r
      → person_ids r.0.0 ≡ map some people
  unfolding build_each
  build_each-ids by_person users cvs created [] s h =
      ap (λ (r : (List Row × List FieldConflict) × S). person_ids r.0.0) (sym (ok-injective h))
  build_each-ids by_person users cvs created (person ∷ rest) s h =
      let (built, eb, h1) =
        >>=-eq-ok
          (build_person numbers services person (or_else (get by_person person) []) users cvs
            (get created person) s)
          _ h in
      let (later, el, e) =
        >>=-eq-ok (build_each numbers services by_person users cvs created rest built.1) _ h1 in
      let one =
        build_person-id person (or_else (get by_person person) []) users cvs (get created person) s
          eb in
      let more = build_each-ids by_person users cvs created rest built.1 el in
      ap (λ (r : (List Row × List FieldConflict) × S). person_ids r.0.0) (sym (ok-injective e))
      ∙ (λ i. one i ∷ more i)

  -- If build_persons returns, its rows are of a list of person ids in which a person stands once
  -- if a record of the rows is linked to it, and not at all otherwise.
  pub build_persons_lem :
      (psr_rows : List Row) (links : Dict String) (users projects existing : List Row) (s : S)
      {r : (List Row × List FieldConflict) × S}
      → build_persons numbers services psr_rows links users projects existing s ≡ ok r
      → (people : List String) × (person_ids r.0.0 ≡ map some people)
        × ((p : String) → count p people ≡ (if any (linked_to links p) psr_rows then 1 else 0))
  unfolding build_persons get
  build_persons_lem psr_rows links users projects existing s h =
      let by_person = views_by_person numbers services psr_rows links [] in
      let (created, _, h1) = >>=-eq-ok (created_times numbers services existing []) _ h in
      (
        sorted (keys by_person),
        build_each-ids by_person users (hacknation_cv_urls numbers projects) created
            (sorted (keys by_person)) s h1,
        λ p.
            count-sorted p (keys by_person)
            ∙ views_by_person-IsDict psr_rows links [] (λ a. refl) p
            ∙ ap (λ b. if b then 1 else 0) (views_by_person-known psr_rows links [] p),
      )

-- A row that the refresh writes has the active person of its record.
abbrev pub IsRefreshed : Dict String → Row → Type 0
IsRefreshed links row =
    (p : String) × (person_of_row links row ≡ some p) × (get_str row "person_id" ≡ some p)

person_of_row-with_person :
    (links : Dict String) (row : Row) (p : String)
    → person_of_row links (with_person row p) ≡ person_of_row links row
unfolding person_of_row
person_of_row-with_person links row p =
    rw (person_of_row, get-insert_other "person_id" "source_record_id" (str p) row refl) refl

backfill_row-IsRefreshed :
    (links : Dict String) (row : Row)
    → All (IsRefreshed links) (backfill_row row (person_of_row links row))
unfolding backfill_row
backfill_row-IsRefreshed links row = elim (Option-cases (person_of_row links row)) [
  | inl e ↦ rw e tt
  | inr (p, e) ↦ elim (Bool-cases (differs (get row "person_id") p)) [
    | inl d ↦
        rw (e, d)
          (
            (
              p,
              person_of_row-with_person links row p ∙ e,
              rw (get-insert_self "person_id" (str p) row) refl,
            ),
            tt,
          )
    | inr d ↦ rw (e, d) tt
  ]
]

differs-same : (o : Option Json) (p : String) → read as_str o ≡ some p → differs o p ≡ false
differs-same (some (str q)) p h = ground (arith, eq_iff q p, some-injective h)
differs-same (some null) p h = cc
differs-same (some (bool b)) p h = cc
differs-same (some (int n)) p h = cc
differs-same (some (float x)) p h = cc
differs-same (some (datetime n)) p h = cc
differs-same (some (arr xs)) p h = cc
differs-same (some (obj fs)) p h = cc
differs-same none p h = cc

backfill_refreshed :
    (links : Dict String) (rows : List Row)
    → All (IsRefreshed links) rows
    → backfill_person_id rows links ≡ []
unfolding backfill_person_id backfill_row
backfill_refreshed links [] h = refl
backfill_refreshed links (row ∷ rows) ((p, e, held), h) =
    rw (e, backfill_refreshed links rows h, differs-same (get row "person_id") p held) refl

backfill_person_id-All :
    (links : Dict String) (rows : List Row)
    → All (IsRefreshed links) (backfill_person_id rows links)
unfolding backfill_person_id
backfill_person_id-All links [] = tt
backfill_person_id-All links (row ∷ rows) =
    All-append (IsRefreshed links) (backfill_row row (person_of_row links row))
      (backfill_person_id rows links) (backfill_row-IsRefreshed links row)
      (backfill_person_id-All links rows)

-- The active person of a record, if the row names one.
abbrev pub active_person : Dict String → Option String → Option String
active_person links none = none
active_person links (some psr) = get links psr

person_of_row_lem :
    (links : Dict String) (row : Row)
    → person_of_row links row ≡ active_person links (get_str row "source_record_id")
unfolding person_of_row
person_of_row_lem links row = elim (Option-cases (get_str row "source_record_id")) [
  | inl e ↦ rw (person_of_row, e) refl
  | inr (psr, e) ↦ rw (person_of_row, e) refl
]

-- The row has the person, or a row that differs from it in the person alone is written.
abbrev pub Reaches : List Row → Row → Option String → Type 0
Reaches written row none = Unit
Reaches written row (some p) =
    (get row "person_id" ≡ some (str p)) ⊎ Memᴰ (with_person row p) written

-- The row has the active person of its record.
abbrev pub HasPerson : Dict String → Row → Type 0
HasPerson links row =
    (p : String) × (active_person links (get_str row "source_record_id") ≡ some p)
    × (get_str row "person_id" ≡ some p)

same_person : (o : Option Json) (p : String) → differs o p ≡ false → o ≡ some (str p)
same_person (some (str q)) p h =
    ap (λ x. some (str x)) (let same : q ≡ p = ground (arith, eq_iff q p) in same)
same_person (some null) p h = cc
same_person (some (bool b)) p h = cc
same_person (some (int n)) p h = cc
same_person (some (float x)) p h = cc
same_person (some (datetime n)) p h = cc
same_person (some (arr xs)) p h = cc
same_person (some (obj fs)) p h = cc
same_person none p h = cc

Reaches-later :
    (earlier written : List Row) (row : Row) (o : Option String)
    → Reaches written row o
    → Reaches (earlier ++ written) row o
Reaches-later earlier written row none h = tt
Reaches-later earlier written row (some p) (inl e) = inl e
Reaches-later earlier written row (some p) (inr m) = inr (Memᴰ.append_right earlier m)

backfill_row-Reaches :
    (written : List Row) (row : Row) (o : Option String)
    → Reaches (backfill_row row o ++ written) row o
unfolding backfill_row
backfill_row-Reaches written row none = tt
backfill_row-Reaches written row (some p) = elim (Bool-cases (differs (get row "person_id") p)) [
  | inl d ↦ inr (rw d (Memᴰ.head refl))
  | inr d ↦ inl (same_person (get row "person_id") p d)
]

backfill_person_id-Reaches :
    (links : Dict String) (rows : List Row)
    → All (λ row. Reaches (backfill_person_id rows links) row (person_of_row links row)) rows
unfolding backfill_person_id
backfill_person_id-Reaches links [] = tt
backfill_person_id-Reaches links (row ∷ rows) =
    let here = backfill_row row (person_of_row links row) in
    let later = backfill_person_id rows links in
    (
      backfill_row-Reaches later row (person_of_row links row),
      All-imp (λ other. Reaches-later here later other (person_of_row links other)) rows
          (backfill_person_id-Reaches links rows),
    )

-- After a refresh of the person ids every row whose record has an active person has that person,
-- or the same row with that person is written; every row that is written has the active person of
-- its record, and a second refresh over the written rows writes none.
pub backfill_person_id-HasPerson :
    (links : Dict String) (rows : List Row)
    → All
        (λ row.
          Reaches
            (backfill_person_id rows links)
            row
            (active_person links (get_str row "source_record_id")))
        rows
      × All (HasPerson links) (backfill_person_id rows links)
      × (backfill_person_id (backfill_person_id rows links) links ≡ [])
backfill_person_id-HasPerson links rows =
    let written = backfill_person_id rows links in
    let h = backfill_person_id-All links rows in
    (
      All-imp (λ row. subst (Reaches written row) (person_of_row_lem links row)) rows
          (backfill_person_id-Reaches links rows),
      All-imp (λ row (p, e, held). (p, sym (person_of_row_lem links row) ∙ e, held)) written h,
      backfill_refreshed links written h,
    )
