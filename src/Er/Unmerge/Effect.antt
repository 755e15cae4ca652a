-- ===== src/Er/Unmerge/Effect.antt =====
-- What the two rows of a plan do to the active links once they are merged into the table.
use hacknation_hackathon.Base.{
  ℕ, suc, ◌≤◌, String, Bool, true, false, ◌≡◌, refl, sym, ap, ◌∙◌, inl, inr, Option, none, some,
  List, [], ◌∷◌, ◌++◌, ◌==◌, arith, find, All, or_else, ok, subst, Bool-cases, if◌then◌else◌,
}
use hacknation_hackathon.Base.Dict.{Dict, get, insert, get-insert}
use hacknation_hackathon.Json.{Row, str, get_str}
use hacknation_hackathon.Er.Allocator.{active_links_from, add_link, status_is_active}
use hacknation_hackathon.Er.Cluster.{LinkRow}
use hacknation_hackathon.Er.Unmerge.{
  UnmergeRequest, UnmergeOutcome, field_is, is_active_link, retract, plan_unmerge,
}
use hacknation_hackathon.Er.Unmerge.Plan.{get-retract, status-retract, plan_unmerge-Plans}

-- The MERGE on the primary key `link_id`: the row of that id is replaced, or the new row is added.
pub merge_link : String → Row → List Row → List Row
merge_link id new [] = new ∷ []
merge_link id new (r ∷ rs) = if field_is r "link_id" id then new ∷ rs else r ∷ merge_link id new rs

-- The columns of a link row that the readers of active links look at.
abbrev pub columns : LinkRow → Row
columns l =
    ("link_id", str l.link_id)
    ∷ ("person_id", str l.person_id)
    ∷ ("source_record_id", str l.source_record_id)
    ∷ ("status", str l.status)
    ∷ []

abbrev pub count_links : String → List Row → ℕ
count_links id [] = 0
count_links id (r ∷ rs) =
    if field_is r "link_id" id then suc (count_links id rs) else count_links id rs

some_same : {r s : Row} → ◌≡◌ {A = Option Row} (some r) (some s) → r ≡ s
some_same h = cc

none-some : {r : Row} → ◌≡◌ {A = Option Row} none (some r) → ⊥
none-some h = cc

find-none :
    (id : String) (rs : List Row) → count_links id rs ≡ 0 → find (is_active_link id) rs ≡ none
find-none id [] h = refl
find-none id (r ∷ rs) h = elim (Bool-cases (field_is r "link_id" id)) [
  | inl e ↦ absurd (omega (arith, rw e at h))
  | inr e ↦ rw e (find-none id rs (rw e at h))
]

merge_link_fresh :
    (id : String) (new : Row) (rs : List Row)
    → All (λ r. field_is r "link_id" id ≡ false) rs
    → merge_link id new rs ≡ rs ++ new ∷ []
unfolding merge_link
merge_link_fresh id new [] h = refl
merge_link_fresh id new (r ∷ rs) h = rw (h.0, merge_link_fresh id new rs h.1) refl

active_links_from-append :
    (d : Dict String) (rs : List Row) (new : Row)
    → active_links_from d (rs ++ new ∷ [])
      ≡ add_link new
          (get_str new "person_id")
          (get_str new "source_record_id")
          (active_links_from d rs)
unfolding active_links_from
active_links_from-append d [] new = refl
active_links_from-append d (r ∷ rs) new =
    active_links_from-append (add_link r (get_str r "person_id") (get_str r "source_record_id") d)
      rs new

-- Two dicts that may differ at one record only.
abbrev Agree : String → Dict String → Dict String → Type 0
Agree psr d d' = (a : String) → (psr == a) ≡ false → get d a ≡ get d' a

Agree-insert :
    (psr k v : String) (d d' : Dict String)
    → Agree psr d d'
    → Agree psr (insert k v d) (insert k v d')
Agree-insert psr k v d d' h a ne = rw (get-insert, get-insert) (ground (arith, h a ne))

Agree-add_link :
    (psr : String) (row : Row) (person record_id : Option String) (d d' : Dict String)
    → Agree psr d d'
    → Agree psr (add_link row person record_id d) (add_link row person record_id d')
unfolding add_link
Agree-add_link psr row none r d d' h = h
Agree-add_link psr row (some p) none d d' h = h
Agree-add_link psr row (some p) (some r) d d' h = elim (Bool-cases (status_is_active row)) [
  | inl e ↦ rw e (Agree-insert psr r p d d' h)
  | inr e ↦ rw e h
]

Agree-active_links_from :
    (psr : String) (rs : List Row) (d d' : Dict String)
    → Agree psr d d'
    → Agree psr (active_links_from d rs) (active_links_from d' rs)
unfolding active_links_from
Agree-active_links_from psr [] d d' h = h
Agree-active_links_from psr (r ∷ rs) d d' h =
    Agree-active_links_from psr rs _ _
      (Agree-add_link psr r (get_str r "person_id") (get_str r "source_record_id") d d' h)

head_found :
    (id : String) (r : Row) (rs : List Row) {original : Row}
    → field_is r "link_id" id ≡ true
    → count_links id rs ≡ 0
    → find (is_active_link id) (r ∷ rs) ≡ some original
    → r ≡ original
head_found id r rs e none_left h = elim (Bool-cases (field_is r "status" "active")) [
  | inl active ↦ some_same (rw (e, active) at h)
  | inr other ↦ absurd (none-some (sym (find-none id rs none_left) ∙ (rw (e, other) at h)))
]

add_link_inactive :
    (row : Row) (person record_id : Option String) (d : Dict String)
    → status_is_active row ≡ false
    → add_link row person record_id d ≡ d
unfolding add_link
add_link_inactive row none r d h = refl
add_link_inactive row (some p) none d h = refl
add_link_inactive row (some p) (some r) d h = rw h refl

Agree-add_link_self :
    (psr : String) (row : Row) (person : Option String) (d : Dict String)
    → Agree psr (add_link row person (some psr) d) d
unfolding add_link
Agree-add_link_self psr row none d a ne = refl
Agree-add_link_self psr row (some p) d a ne = elim (Bool-cases (status_is_active row)) [
  | inl e ↦ rw (e, get-insert, ne) refl
  | inr e ↦ rw e refl
]

-- The retracted row in the place of the one that the plan found.
Agree-retracted :
    (request : UnmergeRequest) (now : ℕ) (original : Row) (psr : String)
    → get_str original "source_record_id" ≡ some psr
    → (rs : List Row) (d : Dict String) → count_links request.link_id rs ≤ 1
    → find (is_active_link request.link_id) rs ≡ some original
    → Agree psr
        (active_links_from d rs)
        (active_links_from d (merge_link request.link_id (retract request now original) rs))
unfolding active_links_from merge_link
Agree-retracted request now original psr hp [] d once h = cc
Agree-retracted request now original psr hp (r ∷ rs) d once h =
    elim (Bool-cases (field_is r "link_id" request.link_id)) [
      | inr e ↦ rw e (
          Agree-retracted request now original psr hp rs
            (add_link r (get_str r "person_id") (get_str r "source_record_id") d) (rw e at once)
            (rw e at h))
      | inl e ↦
          let R = retract request now original in
          let same : r ≡ original =
            head_found request.link_id r rs e (omega (arith, rw e at once)) h in
          let off : status_is_active R ≡ false =
            rw (status-retract request now original, status_is_active) refl in
          rw e (
            Agree-active_links_from psr rs
              (add_link r (get_str r "person_id") (get_str r "source_record_id") d)
              (add_link R (get_str R "person_id") (get_str R "source_record_id") d)
              (rw
                (
                  same,
                  add_link_inactive R (get_str R "person_id") (get_str R "source_record_id") d off,
                  hp,
                )
                (Agree-add_link_self psr original (get_str original "person_id") d)))
    ]

All-find {ℓ} :
    (P : Row → Type ℓ) (p : Row → Bool) (rs : List Row) {row : Row}
    → All P rs
    → find p rs ≡ some row
    → P row
All-find P p [] h e = absurd (none-some e)
All-find P p (r ∷ rs) h e = elim (Bool-cases (p r)) [
  | inl hit ↦ subst P (some_same (rw hit at e)) h.0
  | inr miss ↦ All-find P p rs h.1 (rw miss at e)
]

All-merge_link {ℓ} :
    (P : Row → Type ℓ) (id : String) (new : Row) (rs : List Row)
    → P new
    → All P rs
    → All P (merge_link id new rs)
unfolding merge_link
All-merge_link P id new [] hn h = (hn, tt)
All-merge_link P id new (r ∷ rs) hn h = elim (Bool-cases (field_is r "link_id" id)) [
  | inl e ↦ rw e (hn, h.1)
  | inr e ↦ rw e (h.0, All-merge_link P id new rs hn h.1)
]

-- The table after both rows of a plan are merged.
abbrev pub applied : UnmergeRequest → UnmergeOutcome → List Row → List Row
applied request out links =
    merge_link out.corrective_link.link_id (columns out.corrective_link)
      (merge_link request.link_id out.retracted_link links)

add_link_corrective :
    (l : LinkRow) (d : Dict String)
    → l.status ≡ "active"
    → add_link
        (columns l)
        (get_str (columns l) "person_id")
        (get_str (columns l) "source_record_id")
        d
      ≡ insert l.source_record_id l.person_id d
unfolding add_link get
add_link_corrective l d h = rw h refl

-- A link that names its record.
abbrev pub IsNamed : Row → Type 0
IsNamed r = (psr : String) × (get_str r "source_record_id" ≡ some psr)

abbrev pub HasOtherId : String → Row → Type 0
HasOtherId id r = field_is r "link_id" id ≡ false

link_id-retract :
    (request : UnmergeRequest) (now : ℕ) (row : Row) (id : String)
    → field_is (retract request now row) "link_id" id ≡ field_is row "link_id" id
link_id-retract request now row id =
    rw (get-retract request now row "link_id" ((refl, refl), refl, refl), field_is) refl

-- For a plan that is made, where the link id occurs at most once in the table, the corrective link
-- has a new id and every link names a record, merging the plan gives the record to the requested
-- person and leaves every other record with the person it had.
pub unmerge_repoints :
    (uuid5 : String → String) (request : UnmergeRequest) (links : List Row) (now : ℕ)
    (pipeline_version catalog : String) {out : UnmergeOutcome}
    → plan_unmerge uuid5 request links now pipeline_version catalog ≡ ok out
    → count_links request.link_id links ≤ 1
    → All (HasOtherId out.corrective_link.link_id) links
    → All IsNamed links
    → (a : String)
    → get (active_links_from [] (applied request out links)) a ≡ (
        if out.corrective_link.source_record_id == a
        then some request.to_person_id
        else get (active_links_from [] links) a)
unmerge_repoints uuid5 request links now pipeline_version catalog {out} h once fresh named a =
    let (original, found, p) =
      plan_unmerge-Plans uuid5 request links now pipeline_version catalog h in
    let (psr, hp) = All-find IsNamed (is_active_link request.link_id) links named found in
    let c = out.corrective_link in
    let same : c.source_record_id ≡ psr =
      p.same_record ∙ ap (λ (o : Option String). or_else o "") hp in
    let R = retract request now original in
    let off : field_is R "link_id" c.link_id ≡ false =
      link_id-retract request now original c.link_id
      ∙ All-find (HasOtherId c.link_id) (is_active_link request.link_id) links fresh found in
    let merged = merge_link request.link_id R links in
    let fresh' = All-merge_link (HasOtherId c.link_id) request.link_id R links off fresh in
    rw
      (
        p.retracted,
        merge_link_fresh c.link_id (columns c) merged fresh',
        active_links_from-append,
        add_link_corrective c (active_links_from [] merged) p.active,
        get-insert,
        p.new_person,
      )
      (elim (Bool-cases (c.source_record_id == a)) [
        | inl e ↦ rw e refl
        | inr e ↦ rw e (
            sym (
              Agree-retracted request now original psr hp links [] once found a
                (subst (λ x. (x == a) ≡ false) same e)))
      ])
