-- ===== src/Er/Cluster/Links.antt =====
-- What `build_links` writes.
use hacknation_hackathon.Base.{
  ℕ, ◌≤◌, String, ◌≡◌, refl, ◌∙◌, Bool, true, false, ◌&&◌, ◌||◌, inl, inr, Option, none, some, List,
  [], ◌∷◌, ◌++◌, arith, ◌==◌, count, count-append, concat, All, or_else, All-append, All-select,
  Option-cases, ok, >>=-eq-ok, ok-injective, subst,
}
use hacknation_hackathon.Base.Dict.{Dict, get}
use hacknation_hackathon.Base.Sort.{sorted, count-sorted}
use hacknation_hackathon.Er.Models.{RuleMatch, method_index}
use hacknation_hackathon.Er.Allocator.{Allocator, first_known}
use hacknation_hackathon.Er.Cluster.{
  Keyed, incident, keyed, best_keyed, index_of, best_incident, LinkRow, psr_ids, cluster_person,
  best_row, member_rows, cluster_rows, build_links,
}

pub psr_ids-append : (xs ys : List LinkRow) → psr_ids (xs ++ ys) ≡ psr_ids xs ++ psr_ids ys
psr_ids-append [] ys = refl
psr_ids-append (x ∷ xs) ys = λ i. x.source_record_id ∷ psr_ids-append xs ys i

-- Every automatic match has a method that METHOD_PRIORITY lists.
abbrev pub HasPriority : RuleMatch → Type 0
HasPriority m = m.auto ≡ true → (i : ℕ) × (method_index m.method ≡ some i)

abbrev Indexed : RuleMatch → Type 0
Indexed m = (i : ℕ) × (method_index m.method ≡ some i)

keyed_total : (ms : List RuleMatch) → All Indexed ms → (ks : List Keyed) × (keyed ms ≡ ok ks)
unfolding keyed index_of
keyed_total [] h = ([], refl)
keyed_total (m ∷ ms) ((i, e), rest) =
    let (ks, ek) = keyed_total ms rest in ((i, m) ∷ ks, rw (e, index_of) (rw ek refl))

and_left : (a b : Bool) → (a && b) ≡ true → a ≡ true
and_left true b h = refl
and_left false b h = h

All-and :
    (p : RuleMatch → Bool) (ms : List RuleMatch)
    → All HasPriority ms
    → All (λ m. (m.auto && p m) ≡ true → Indexed m) ms
All-and p [] h = tt
All-and p (m ∷ ms) h = ((λ e. h.0 (and_left m.auto (p m) e)), All-and p ms h.1)

pub best_incident_total :
    (member : String) (ms : List RuleMatch)
    → All HasPriority ms
    → (best : Option RuleMatch) × (best_incident member ms ≡ ok best)
unfolding best_incident
best_incident_total member ms h =
    let p : RuleMatch → Bool = λ m. member == m.left || member == m.right in
    let (ks, e) =
      keyed_total (incident member ms)
        (All-select Indexed (λ m. m.auto && p m) ms (All-and p ms h)) in
    (best_keyed ks, rw e refl)

module _ (uuid5 : String → String) (linked : Dict String) (matches : List RuleMatch) (now : ℕ)
    (pipeline_version : String) where
  -- A row that may stand in a cluster of `person`.
  abbrev RowOf : String → LinkRow → Type 0
  RowOf person r =
      (r.person_id ≡ person) × (r.status ≡ "active") × (get linked r.source_record_id ≡ none)

  -- The rows for `ms`: all of `person`, and each member at most once and only if it has no link.
  abbrev Writes : String → List String → List LinkRow → Type 0
  Writes person ms rows =
      All (RowOf person) rows × ((a : String) → count a (psr_ids rows) ≤ count a ms)

  best_row-Writes :
      (person m : String) (best : Option RuleMatch)
      → get linked m ≡ none
      → Writes person (m ∷ []) (best_row uuid5 linked matches now pipeline_version person m best)
  unfolding best_row
  best_row-Writes person m none h = (tt, λ a. ground arith)
  best_row-Writes person m (some b) h = (((refl, refl, h), tt), λ a. omega arith)

  member_rows-Writes :
      (person m : String) {rows : List LinkRow}
      → member_rows uuid5 linked matches now pipeline_version person m ≡ ok rows
      → Writes person (m ∷ []) rows
  unfolding member_rows
  member_rows-Writes person m h = elim (Option-cases (get linked m)) [
    | inr (p, e) ↦ subst (Writes person (m ∷ [])) (ok-injective (rw e at h)) (tt, λ a. ground arith)
    | inl e ↦
        let (best, _, h') = >>=-eq-ok (best_incident m matches) _ (rw e at h) in
        subst (Writes person (m ∷ [])) (ok-injective h') (best_row-Writes person m best e)
  ]

  cluster_rows-Writes :
      (person : String) (ms : List String) {rows : List LinkRow}
      → cluster_rows uuid5 linked matches now pipeline_version person ms ≡ ok rows
      → Writes person ms rows
  unfolding cluster_rows
  cluster_rows-Writes person [] h = subst (Writes person []) (ok-injective h) (tt, λ a. omega arith)
  cluster_rows-Writes person (m ∷ ms) h =
      let (row, er, h') =
        >>=-eq-ok (member_rows uuid5 linked matches now pipeline_version person m) _ h in
      let (rest, es, e) =
        >>=-eq-ok (cluster_rows uuid5 linked matches now pipeline_version person ms) _ h' in
      let one : Writes person (m ∷ []) row = member_rows-Writes person m er in
      let later : Writes person ms rest = cluster_rows-Writes person ms es in
      subst (Writes person (m ∷ ms)) (ok-injective e) (
        All-append (RowOf person) row rest one.0 later.0,
        λ a.
            rw psr_ids-append
              (ground (arith, one.1 a, later.1 a, count-append a (psr_ids row) (psr_ids rest))),
      )

  -- The rows of each cluster are of one person; over all clusters a record is linked at most as often
  -- as it occurs, and only if it has no active link yet.
  abbrev IsFresh : LinkRow → Type 0
  IsFresh r = (r.status ≡ "active") × (get linked r.source_record_id ≡ none)

  All-IsFresh : (person : String) (rows : List LinkRow) → All (RowOf person) rows → All IsFresh rows
  All-IsFresh person [] h = tt
  All-IsFresh person (r ∷ rs) ((_, active, unlinked), h) =
      ((active, unlinked), All-IsFresh person rs h)

  abbrev Written : List (List String) → List LinkRow → Type 0
  Written clusters rows =
      All IsFresh rows × ((a : String) → count a (psr_ids rows) ≤ count a (concat clusters))

  build_links-Written :
      {S : Type 0} (allocate : Allocator S) (clusters : List (List String)) (s : S)
      {out : List LinkRow × S}
      → build_links uuid5 linked matches now pipeline_version allocate clusters s ≡ ok out
      → Written clusters out.0
  unfolding build_links
  build_links-Written allocate [] s h =
      subst (λ o. Written [] o.0) (ok-injective h) (tt, λ a. omega arith)
  build_links-Written allocate (c ∷ cs) s h =
      let (person, s') = cluster_person linked allocate c s in
      let (rows, er, h') =
        >>=-eq-ok (cluster_rows uuid5 linked matches now pipeline_version person (sorted c)) _ h in
      let (rest, es, e) =
        >>=-eq-ok (build_links uuid5 linked matches now pipeline_version allocate cs s') _ h' in
      let one : Writes person (sorted c) rows = cluster_rows-Writes person (sorted c) er in
      let later : Written cs rest.0 = build_links-Written allocate cs s' es in
      subst (λ o. Written (c ∷ cs) o.0) (ok-injective e)
        (
          All-append IsFresh rows rest.0 (All-IsFresh person rows one.0) later.0,
          λ a. rw psr_ids-append (
              ground (
                arith,
                one.1 a,
                later.1 a,
                count-append a (psr_ids rows) (psr_ids rest.0),
                count-sorted a c,
                count-append a c (concat cs),
              )),
        )

module _ (uuid5 : String → String) (linked : Dict String) (matches : List RuleMatch) (now : ℕ)
    (pipeline_version : String) {S : Type 0} (allocate : Allocator S) where
  -- The rows that build_links writes are active, none is for a record that has an active link, and
  -- each record is written at most as often as it occurs in the clusters.
  pub build_links_fresh :
      (clusters : List (List String)) (s : S) {rows : List LinkRow} {s' : S}
      → build_links uuid5 linked matches now pipeline_version allocate clusters s ≡ ok (rows, s')
      → All (λ r. (r.status ≡ "active") × (get linked r.source_record_id ≡ none)) rows
        × ((a : String) → count a (psr_ids rows) ≤ count a (concat clusters))
  build_links_fresh clusters s h =
      build_links-Written uuid5 linked matches now pipeline_version allocate clusters s h

  person-cluster_person :
      (cluster : List String) (s : S)
      → (cluster_person linked allocate cluster s).0
        ≡ or_else (first_known linked (sorted cluster)) (allocate cluster s).0
  unfolding cluster_person
  person-cluster_person cluster s = ground arith

  All-person_id :
      (person q : String)
      → person ≡ q
      → (rows : List LinkRow) → All (RowOf uuid5 linked matches now pipeline_version person) rows
      → All (λ r. r.person_id ≡ q) rows
  All-person_id person q e [] h = tt
  All-person_id person q e (r ∷ rs) h = (h.0.0 ∙ e, All-person_id person q e rs h.1)

  member_rows_total :
      All HasPriority matches
      → (person m : String)
      → (rows : List LinkRow) × (member_rows uuid5 linked matches now pipeline_version person m
          ≡ ok rows)
  unfolding member_rows
  member_rows_total known person m = elim (Option-cases (get linked m)) [
    | inr (p, e) ↦ ([], rw e refl)
    | inl e ↦
        let (best, eb) = best_incident_total m matches known in
        (best_row uuid5 linked matches now pipeline_version person m best, rw (e, eb) refl)
  ]

  cluster_rows_total :
      All HasPriority matches
      → (person : String) (ms : List String)
      → (rows : List LinkRow) × (cluster_rows uuid5 linked matches now pipeline_version person ms
          ≡ ok rows)
  unfolding cluster_rows
  cluster_rows_total known person [] = ([], refl)
  cluster_rows_total known person (m ∷ ms) =
      let (row, e) = member_rows_total known person m in
      let (rest, e') = cluster_rows_total known person ms in (row ++ rest, rw (e, e') refl)

  -- Where every automatic match has a method of METHOD_PRIORITY, build_links does not raise.
  pub build_links_total :
      All HasPriority matches
      → (clusters : List (List String)) (s : S)
      → (out : List LinkRow × S) × (build_links uuid5 linked matches now pipeline_version allocate
            clusters s
          ≡ ok out)
  unfolding build_links
  build_links_total known [] s = (([], s), refl)
  build_links_total known (c ∷ cs) s =
      let (person, s') = cluster_person linked allocate c s in
      let (rows, e) = cluster_rows_total known person (sorted c) in
      let (rest, e') = build_links_total known cs s' in ((rows ++ rest.0, rest.1), rw (e, e') refl)
