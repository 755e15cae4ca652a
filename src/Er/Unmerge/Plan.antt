-- ===== src/Er/Unmerge/Plan.antt =====
-- What a plan says, and when there is none.
use hacknation_hackathon.Base.{
  ℕ, String, false, ◌≡◌, refl, none, some, List, ◌==◌, arith, find, or_else, ok, err, >>=-eq-ok,
  ok-injective, subst,
}
use hacknation_hackathon.Base.Dict.{get, get-insert}
use hacknation_hackathon.Json.{Row, get_str}
use hacknation_hackathon.Er.Cluster.{link_row}
use hacknation_hackathon.Er.Unmerge.{
  unknown_link, UnmergeRequest, UnmergeOutcome, is_active_link, active_link, retract,
  invalidation_sql, plan_unmerge,
}

-- A column that a retraction does not set.
abbrev pub IsKept : String → Type 0
IsKept k =
    ((("status" == k) ≡ false) × (("retracted_at" == k) ≡ false))
    × (("retracted_by" == k) ≡ false)
    × (("retracted_reason" == k) ≡ false)

pub get-retract :
    (request : UnmergeRequest) (now : ℕ) (row : Row) (k : String)
    → IsKept k
    → get (retract request now row) k ≡ get row k
unfolding retract
get-retract request now row k h =
    rw (get-insert, h.2, get-insert, h.1, get-insert, h.0.1, get-insert, h.0.0) refl

pub status-retract :
    (request : UnmergeRequest) (now : ℕ) (row : Row)
    → get_str (retract request now row) "status" ≡ some "retracted"
unfolding retract
status-retract request now row = rw (get-insert, get-insert, get-insert, get-insert) refl

-- What a plan for the link `original` is.
pub record Plans (request : UnmergeRequest) (now : ℕ) (original : Row) (out : UnmergeOutcome)
    : Type 0 where
  pub retracted : out.retracted_link ≡ retract request now original
  pub same_record :
      out.corrective_link.source_record_id ≡ or_else (get_str original "source_record_id") ""
  pub new_person : out.corrective_link.person_id ≡ request.to_person_id
  pub active : out.corrective_link.status ≡ "active"

find-active_link :
    (links : List Row) (id : String) {row : Row}
    → active_link links id ≡ ok row
    → find (is_active_link id) links ≡ some row
unfolding active_link
find-active_link links id h = ground arith

active_link-none :
    (links : List Row) (id : String)
    → find (is_active_link id) links ≡ none
    → active_link links id ≡ err (unknown_link id)
unfolding active_link
active_link-none links id h = ground arith

pub plan_unmerge-Plans :
    (uuid5 : String → String) (request : UnmergeRequest) (links : List Row) (now : ℕ)
    (pipeline_version catalog : String) {out : UnmergeOutcome}
    → plan_unmerge uuid5 request links now pipeline_version catalog ≡ ok out
    → (original : Row) × (find (is_active_link request.link_id) links ≡ some original)
      × Plans request now original out
unfolding plan_unmerge link_row
plan_unmerge-Plans uuid5 request links now pipeline_version catalog h =
    let (original, found, h') = >>=-eq-ok (active_link links request.link_id) _ h in
    let (from_sql, _, h₁) =
      >>=-eq-ok (invalidation_sql catalog (or_else (get_str original "person_id") "")) _ h' in
    let (to_sql, _, h₂) = >>=-eq-ok (invalidation_sql catalog request.to_person_id) _ h₁ in
    (
      original,
      find-active_link links request.link_id found,
      subst (Plans request now original) (ok-injective h₂)
          (record { retracted = refl; same_record = refl; new_person = refl; active = refl }),
    )

-- A plan retracts the active link that the request names and touches no column of it but the four
-- of a retraction; the corrective link is active and gives the same record to the requested
-- person.
pub plan_unmerge_lem :
    (uuid5 : String → String) (request : UnmergeRequest) (links : List Row) (now : ℕ)
    (pipeline_version catalog : String) {out : UnmergeOutcome}
    → plan_unmerge uuid5 request links now pipeline_version catalog ≡ ok out
    → (original : Row) × (find (is_active_link request.link_id) links ≡ some original)
      × (get_str out.retracted_link "status" ≡ some "retracted")
      × ((k : String) → IsKept k → get out.retracted_link k ≡ get original k)
      × (out.corrective_link.source_record_id ≡ or_else (get_str original "source_record_id") "")
      × (out.corrective_link.person_id ≡ request.to_person_id)
      × (out.corrective_link.status ≡ "active")
plan_unmerge_lem uuid5 request links now pipeline_version catalog h =
    let (original, e, p) = plan_unmerge-Plans uuid5 request links now pipeline_version catalog h in
    (
      original,
      e,
      rw p.retracted (status-retract request now original),
      λ k kept. rw p.retracted (get-retract request now original k kept),
      p.same_record,
      p.new_person,
      p.active,
    )

-- A link that is absent or no longer active cannot be unmerged.
plan_unmerge_unknown :
    (uuid5 : String → String) (request : UnmergeRequest) (links : List Row) (now : ℕ)
    (pipeline_version catalog : String)
    → find (is_active_link request.link_id) links ≡ none
    → plan_unmerge uuid5 request links now pipeline_version catalog
      ≡ err (unknown_link request.link_id)
unfolding plan_unmerge link_row
plan_unmerge_unknown uuid5 request links now pipeline_version catalog h =
    rw (active_link-none links request.link_id h) refl
