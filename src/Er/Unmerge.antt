-- ===== src/Er/Unmerge.antt =====
-- er/unmerge.py: the plan for moving one record to another person.
pub mod Plan
pub mod Effect
mod Tests
use hacknation_hackathon.Base.{
  ℕ, String, Bool, true, false, ◌&&◌, Option, none, some, List, [], ◌∷◌, ◌==◌, find, or_else,
  is_some, Result, ok, err, ◌>>=◌, if◌then◌else◌,
}
use hacknation_hackathon.Base.Dict.{get, insert}
use hacknation_hackathon.Base.Float.{Float}
use hacknation_hackathon.Base.Text.{join}
use hacknation_hackathon.Json.{Row, str, datetime, get_str}
use hacknation_hackathon.Er.Allocator.{status_is_active}
use hacknation_hackathon.Er.Cluster.{LinkRow, link_row}
use hacknation_hackathon.Scrapers.Sql.{UnsafeIdentifierError, require_identifier, escape}

-- CORRECTIVE_METHOD and CORRECTIVE_CONFIDENCE (0.95)
abbrev pub corrective_method : String
corrective_method = "human_review"

abbrev pub corrective_confidence : Float
corrective_confidence = record { bits = 0x3FEE666666666666 }

pub data UnmergeError : Type 0 where
  unknown_link : String → UnmergeError
  unsafe_catalog : UnsafeIdentifierError → UnmergeError

pub record UnmergeRequest : Type 0 where
  pub link_id : String
  pub to_person_id : String
  pub reason : String
  pub reviewer_note : String
  pub actor : String

pub record UnmergeOutcome : Type 0 where
  pub retracted_link : Row
  pub corrective_link : LinkRow
  pub source_record_id : String
  pub affected_person_ids : String × String
  pub invalidation_statements : List String

-- `row.get(key) == text`
abbrev pub field_is : Row → String → String → Bool
field_is row key text = elim (get_str row key) [ some s ↦ s == text | none ↦ false ]

abbrev pub is_active_link : String → Row → Bool
is_active_link link_id row = field_is row "link_id" link_id && field_is row "status" "active"

unfoldable pub active_link : List Row → String → Result UnmergeError Row
active_link links link_id = elim (find (is_active_link link_id) links) [
  | some row ↦ ok row
  | none ↦ err (unknown_link link_id)
]

-- The row with `status`, `retracted_at`, `retracted_by` and `retracted_reason` set.
unfoldable pub retract : UnmergeRequest → ℕ → Row → Row
retract request now original = insert "retracted_reason" (str request.reason) (
    insert "retracted_by" (str request.actor)
      (insert "retracted_at" (datetime now) (insert "status" (str "retracted") original)))

catalog_of : String → Result UnmergeError String
catalog_of catalog = elim (require_identifier catalog) [
  | ok safe ↦ ok safe
  | err e ↦ err (unsafe_catalog e)
]

invalidation_sql : String → String → Result UnmergeError String
unfolding catalog_of
invalidation_sql catalog person_id = do
  safe ← catalog_of catalog
  ok (
      join (
        "UPDATE "
        ∷ safe
        ∷ ".gold.venture_score SET is_latest = false WHERE venture_id IN (SELECT venture_id FROM "
        ∷ safe
        ∷ ".gold.venture_member WHERE person_id = '"
        ∷ escape person_id
        ∷ "')"
        ∷ []))

unfoldable pub plan_unmerge :
    (String → String)
    → UnmergeRequest
    → List Row
    → ℕ
    → String
    → String
    → Result UnmergeError UnmergeOutcome
unfolding active_link retract invalidation_sql
plan_unmerge uuid5 request links now pipeline_version catalog = do
  original ← active_link links request.link_id
  let psr = or_else (get_str original "source_record_id") ""
  let from_person = or_else (get_str original "person_id") ""
  from_sql ← invalidation_sql catalog from_person
  to_sql ← invalidation_sql catalog request.to_person_id
  ok (record {
    retracted_link = retract request now original;
    corrective_link =
        link_row uuid5 request.to_person_id psr corrective_method corrective_confidence
          (("rule", str "unmerge correction") ∷ ("reviewer_note", str request.reviewer_note) ∷ [])
          now pipeline_version;
    source_record_id = psr;
    affected_person_ids = (from_person, request.to_person_id);
    invalidation_statements = from_sql ∷ to_sql ∷ [];
  })
