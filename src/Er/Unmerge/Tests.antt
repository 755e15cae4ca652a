-- ===== src/Er/Unmerge/Tests.antt =====
-- A reviewer's correction of one link, run.
use hacknation_hackathon.Base.{
  String, ◌≡◌, refl, some, List, [], ◌∷◌, if◌then◌else◌, ◌==◌, or_else, find, arith,
}
use hacknation_hackathon.Base.Dict.{get, insert}
use hacknation_hackathon.Base.Text.{join}
use hacknation_hackathon.Json.{Row, str, get_str}
use hacknation_hackathon.Scrapers.Sql.{require_identifier, escape}
use hacknation_hackathon.Er.Allocator.{active_links_from}
use hacknation_hackathon.Er.Cluster.{link_row}
use hacknation_hackathon.Er.Unmerge.{
  UnmergeRequest, UnmergeOutcome, is_active_link, plan_unmerge, retract, corrective_method,
  corrective_confidence,
}
use hacknation_hackathon.Er.Unmerge.Plan.{IsKept, plan_unmerge_lem}
use hacknation_hackathon.Er.Unmerge.Effect.{applied, unmerge_repoints}

abbrev test_uuid5 : String → String
test_uuid5 s = s

abbrev link_rows : List Row
link_rows =
    (("link_id", str "l1")
      ∷ ("person_id", str "p1")
      ∷ ("source_record_id", str "a1")
      ∷ ("status", str "active")
      ∷ [])
    ∷ []

abbrev request : String → UnmergeRequest
request link_id = record {
  link_id = link_id;
  to_person_id = "p2";
  reason = "two people";
  reviewer_note = "homonym";
  actor = "reviewer";
}

abbrev linked_row : Row
linked_row =
    ("link_id", str "l1")
    ∷ ("person_id", str "p1")
    ∷ ("source_record_id", str "a1")
    ∷ ("status", str "active")
    ∷ []

abbrev statement : String → String
statement person_id = join (
    "UPDATE dealflow_dev.gold.venture_score SET is_latest = false WHERE venture_id IN (SELECT venture_id FROM dealflow_dev.gold.venture_member WHERE person_id = '"
    ∷ person_id ∷ "')" ∷ [])

abbrev planned : UnmergeOutcome
planned = record {
  retracted_link = retract (request "l1") 7 linked_row;
  corrective_link =
      link_row test_uuid5 "p2" "a1" corrective_method corrective_confidence
        (("rule", str "unmerge correction") ∷ ("reviewer_note", str "homonym") ∷ []) 7 "er-1";
  source_record_id = "a1";
  affected_person_ids = ("p1", "p2");
  invalidation_statements = statement "p1" ∷ statement "p2" ∷ [];
}

plan_unmerge_lem_example :
    (original : Row) × (find (is_active_link "l1") link_rows ≡ some original)
    × (get_str planned.retracted_link "status" ≡ some "retracted")
    × ((k : String) → IsKept k → get planned.retracted_link k ≡ get original k)
    × (planned.corrective_link.source_record_id ≡ or_else (get_str original "source_record_id") "")
    × (planned.corrective_link.person_id ≡ "p2")
    × (planned.corrective_link.status ≡ "active")
unfolding plan_unmerge get insert require_identifier escape
plan_unmerge_lem_example =
    plan_unmerge_lem test_uuid5 (request "l1") link_rows 7 "er-1" "dealflow_dev" {out = planned}
      refl

unmerge_repoints_example :
    get (active_links_from [] (applied (request "l1") planned link_rows)) "a1" ≡ (
      if planned.corrective_link.source_record_id == "a1"
      then some "p2"
      else get (active_links_from [] link_rows) "a1")
unfolding plan_unmerge link_row get insert require_identifier escape
unmerge_repoints_example =
    unmerge_repoints test_uuid5 (request "l1") link_rows 7 "er-1" "dealflow_dev" {out = planned}
      refl (omega arith) (refl, tt) (("a1", refl), tt) "a1"
