-- ===== src/Er/Tests.antt =====
-- The entity resolution run on small inputs.
use hacknation_hackathon.Base.{
  ℕ, ◌+◌, ◌≤◌, String, true, ◌≡◌, ◌≢◌, refl, none, some, List, [], ◌∷◌, Result, ok, err, count,
  concat, All, arith, eq_iff,
}
use hacknation_hackathon.Base.Dict.{Dict, get, IsDict}
use hacknation_hackathon.Base.Sort.{sorted}
use hacknation_hackathon.Er.Models.{PsrView, psr_view, RuleMatch, det_email, ReviewItem}
use hacknation_hackathon.Er.Allocator.{Allocator}
use hacknation_hackathon.Er.Graph.{union_components, union_components-Components}
use hacknation_hackathon.Er.Cluster.{LinkRow, ClusterError, build_links, guard_same_source, psr_ids}
use hacknation_hackathon.Er.Cluster.Guard.{
  OnePerSource, Collides, ejected_ids, guard_same_source-OnePerSource,
  guard_same_source_keeps_members, guard_same_source-Collides,
}
use hacknation_hackathon.Er.Cluster.Links.{HasPriority, build_links_fresh, build_links_total}
use hacknation_hackathon.Er.Pipeline.{
  Libraries, MatchState, ErDeps, Outcome, link_and_mint, assert_one_active_link, pair_review_item,
  review_rows,
}
use hacknation_hackathon.Er.Pipeline.OneLink.{link_and_mint_one_link}
use hacknation_hackathon.Er.Pipeline.Review.{
  count_rows, pair_review_item_separate, review_rows_once,
}

-- An id factory for uuid5 that keeps texts apart, and an allocator that names a person by its first member.
abbrev test_uuid5 : String → String
test_uuid5 s = s

abbrev by_member : Allocator ℕ
by_member [] s = ("nobody", s)
by_member (m ∷ ms) s = (m, s)

abbrev same_email : RuleMatch
same_email = record {
  left = "a1";
  right = "b1";
  rule = "D2";
  method = det_email;
  confidence = record { bits = 0x3fef5c28f5c28f5c };
  auto = true;
  evidence = [];
}

abbrev found : List RuleMatch
found = same_email ∷ []

abbrev test_sources : Dict String
test_sources = ("a1", "github") ∷ ("b1", "github") ∷ ("c1", "zefix") ∷ []

abbrev test_clusters : List (List String)
test_clusters = ("a1" ∷ "b1" ∷ "c1" ∷ []) ∷ []

guard_same_source-OnePerSource_example :
    All (OnePerSource test_sources) (guard_same_source test_sources test_clusters).clusters
guard_same_source-OnePerSource_example = guard_same_source-OnePerSource test_sources test_clusters

guard_same_source_keeps_members_example :
    let r = guard_same_source test_sources test_clusters in
    count "b1" (concat r.clusters) + count "b1" (ejected_ids r.ejected)
    ≡ count "b1" (concat test_clusters)
guard_same_source_keeps_members_example =
    guard_same_source_keeps_members test_sources test_clusters "b1"

guard_same_source-Collides_example :
    All (Collides test_sources) (guard_same_source test_sources test_clusters).ejected
guard_same_source-Collides_example = guard_same_source-Collides test_sources test_clusters

-- The method has a place in the order.
known : All HasPriority found
known = (λ e. (_, refl), tt)

build_links_total_example :
    (out : List LinkRow × ℕ) × (build_links test_uuid5 [] found 7 "er-1" by_member
        (("a1" ∷ "b1" ∷ []) ∷ [])
        0
      ≡ ok out)
build_links_total_example =
    build_links_total test_uuid5 [] found 7 "er-1" by_member known (("a1" ∷ "b1" ∷ []) ∷ []) 0

abbrev rows_of : Result ClusterError (List LinkRow × ℕ) → List LinkRow
rows_of (ok out) = out.0
rows_of (err e) = []

abbrev pair : List String
pair = "a1" ∷ "b1" ∷ []

abbrev built : List LinkRow
built = rows_of (build_links test_uuid5 [] found 7 "er-1" by_member (pair ∷ []) 0)

build_links_fresh_example :
    All (λ r. (r.status ≡ "active") × (get {V = String} [] r.source_record_id ≡ none)) built
    × ((a : String) → count a (psr_ids built) ≤ count a (concat (pair ∷ [])))
unfolding build_links get sorted
build_links_fresh_example =
    build_links_fresh test_uuid5 [] found 7 "er-1" by_member (pair ∷ []) 0 refl

abbrev libraries : Libraries
libraries = record { uuid5 = test_uuid5; connected_components = union_components; round4 = λ x. x }

abbrev deps : ErDeps ℕ
deps = record { allocator = by_member; link_now = 6; now = 7; pipeline_version = "er-1" }

-- A record of a source with nothing in it but its id.
abbrev bare : String → String → PsrView
bare id source = record (psr_view (λ t. "") []) { source_record_id = id; source = source }

abbrev views : List PsrView
views = bare "a1" "github" ∷ bare "b1" "zefix" ∷ bare "c1" "zefix" ∷ []

abbrev linked : Dict String
linked = ("c1", "person-3") ∷ []

linked-IsDict : IsDict linked
unfolding get
linked-IsDict a = ground (arith, eq_iff "c1" a)

abbrev matched : MatchState
matched = record { matches = found; adjudication_rows = []; d6_pairs = []; review_pairs = [] }

link_and_mint_one_link_example :
    (out : Outcome ℕ) × (link_and_mint libraries deps views linked matched 0 ≡ ok out)
    × (assert_one_active_link views linked out.links ≡ ok tt)
link_and_mint_one_link_example =
    link_and_mint_one_link libraries deps (union_components-Components) views linked matched 0
      linked-IsDict known

review_rows_once_example :
    count_rows
      ("a1", "person-3")
      (review_rows libraries linked [] (guard_same_source test_sources test_clusters) matched 7)
    ≤ 1
review_rows_once_example =
    review_rows_once libraries linked [] (guard_same_source test_sources test_clusters) matched 7
      ("a1", "person-3")

abbrev proposed : ReviewItem
proposed = record {
  source_record_id = "a1";
  candidate_person_id = "person-3";
  score = record { bits = 0x3FE0000000000000 };
  method = "splink";
  features = [];
}

abbrev persons : Dict String
persons = ("a1", "person-1") ∷ ("c1", "person-3") ∷ []

pair_review_item_separate_example : (p : String) × (get persons "a1" ≡ some p) × (p ≢ "person-3")
unfolding pair_review_item get
pair_review_item_separate_example =
    pair_review_item_separate "a1" "c1" persons ("c1" ∷ []) (record { bits = 0x3FE0000000000000 })
      "splink" [] {item = proposed} refl
