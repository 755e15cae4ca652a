-- ===== src/Er/Cluster.antt =====
-- er/cluster.py: clusters of auto matches, the same-source guard and the link rows. A frozenset of
-- record ids is the list of its members, each once; the code sorts it wherever order matters.
pub mod Guard
pub mod Links
use Prim.Native.String.{◌++◌ as str_append}
use hacknation_hackathon.Base.{
  ℕ, String, Bool, true, false, ◌&&◌, ◌||◌, Option, none, some, List, [], ◌∷◌, ◌++◌, map, ◌==◌, ltb,
  eqb, or_else, is_some, contains, select, Result, ok, err, ◌>>=◌, if◌then◌else◌,
}
use hacknation_hackathon.Base.Dict.{Dict, get, insert, keys, values}
use hacknation_hackathon.Base.Float.{Float}
use hacknation_hackathon.Base.Sort.{sorted, sort_by, str_lt}
use hacknation_hackathon.Json.{Row, Json, str, json_list}
use hacknation_hackathon.Er.Models.{RuleMatch, ReviewItem, Method, method_index, method_name}
use hacknation_hackathon.Er.Allocator.{Allocator, first_known}
use hacknation_hackathon.Er.Graph.{Edges}

pub record ClusterResult : Type 0 where
  pub clusters : List (List String)
  pub ejected : List (String × List String)

-- The edges of `components`: the auto matches.
unfoldable pub auto_edges : List RuleMatch → Edges
auto_edges [] = []
auto_edges (m ∷ ms) = if m.auto then (m.left, m.right) ∷ auto_edges ms else auto_edges ms

-- `min` of a component, which is not empty
smallest : List String → String
smallest [] = ""
smallest (x ∷ []) = x
smallest (x ∷ y ∷ r) = let m = smallest (y ∷ r) in if str_lt m x then m else x

unfoldable pub components : (Edges → List (List String)) → List RuleMatch → List (List String)
unfolding smallest auto_edges
components connected_components matches =
    sort_by (λ c d. str_lt (smallest c) (smallest d)) (connected_components (auto_edges matches))

-- `sources.get(member, "")`
abbrev pub source_of : Dict String → String → String
source_of sources member = or_else (get sources member) ""

-- One round of the inner loop of `guard_same_source`, over `kept` and `dropped`.
guard_member : Dict String → String → Dict String × List String → Dict String × List String
guard_member sources member (kept, dropped) =
    if contains (source_of sources member) (values kept)
    then (kept, dropped ++ member ∷ [])
    else (insert member (source_of sources member) kept, dropped)

guard_members : Dict String → List String → Dict String × List String → Dict String × List String
guard_members sources [] state = state
guard_members sources (m ∷ ms) state = guard_members sources ms (guard_member sources m state)

unfoldable pub guard_same_source : Dict String → List (List String) → ClusterResult
unfolding guard_members guard_member
guard_same_source sources [] = record { clusters = []; ejected = [] }
guard_same_source sources (cluster ∷ rest) =
    let (kept, dropped) = guard_members sources (sorted cluster) ([], []) in
    let guarded = guard_same_source sources rest in
    record {
      clusters = keys kept ∷ guarded.clusters;
      ejected = map (λ member. (member, keys kept)) dropped ++ guarded.ejected;
    }

-- The ValueError of `METHOD_PRIORITY.index`.
pub data ClusterError : Type 0 where
  not_in_tuple : Method → ClusterError

abbrev incident : String → List RuleMatch → List RuleMatch
incident member = select (λ m. m.auto && (member == m.left || member == m.right))

abbrev Keyed : Type 0
Keyed = ℕ × RuleMatch

-- The tuples that `min` compares.
key_lt : Keyed → Keyed → Bool
key_lt (i, m) (j, n) =
    ltb i j || (eqb i j && (str_lt m.left n.left || (m.left == n.left && str_lt m.right n.right)))

index_of : Option ℕ → Method → Result ClusterError ℕ
index_of none m = err (not_in_tuple m)
index_of (some i) m = ok i

keyed : List RuleMatch → Result ClusterError (List Keyed)
unfolding index_of
keyed [] = ok []
keyed (m ∷ ms) = do
  i ← index_of (method_index m.method) m.method
  rest ← keyed ms
  ok ((i, m) ∷ rest)

-- `min`: the first of the smallest
min_keyed : Keyed → List Keyed → RuleMatch
min_keyed best [] = best.1
min_keyed best (k ∷ ks) = min_keyed (if key_lt k best then k else best) ks

best_keyed : List Keyed → Option RuleMatch
best_keyed [] = none
best_keyed (k ∷ ks) = some (min_keyed k ks)

unfoldable pub best_incident : String → List RuleMatch → Result ClusterError (Option RuleMatch)
unfolding keyed best_keyed min_keyed key_lt
best_incident member matches = do ks ← keyed (incident member matches); ok (best_keyed ks)

-- One row of silver.person_source_link, with the columns of `link_row`.
pub record LinkRow : Type 0 where
  pub link_id : String
  pub person_id : String
  pub source_record_id : String
  pub match_confidence : Float
  pub match_method : String
  pub evidence : Row
  pub pipeline_version : String
  pub matched_at : ℕ
  pub status : String
  pub retracted_at : Option ℕ
  pub retracted_by : Option String
  pub retracted_reason : Option String

-- `ids.link_id`: uuid5 is the library's.
abbrev pub link_id_of : (String → String) → String → String → String → String
link_id_of uuid5 person psr method = uuid5 (str_append person (str_append psr method))

unfoldable pub link_row :
    (String → String) → String → String → String → Float → Row → ℕ → String → LinkRow
link_row uuid5 person_id source_record_id method confidence evidence matched_at pipeline_version =
    record {
      link_id = link_id_of uuid5 person_id source_record_id method;
      person_id = person_id;
      source_record_id = source_record_id;
      match_confidence = confidence;
      match_method = method;
      evidence = evidence;
      pipeline_version = pipeline_version;
      matched_at = matched_at;
      status = "active";
      retracted_at = none;
      retracted_by = none;
      retracted_reason = none;
    }

abbrev pub psr_ids : List LinkRow → List String
psr_ids [] = []
psr_ids (r ∷ rs) = r.source_record_id ∷ psr_ids rs

unfoldable pub cluster_person :
    {S : Type 0} → Dict String → Allocator S → List String → S → String × S
cluster_person linked allocate cluster s = elim (first_known linked (sorted cluster)) [
  | some person ↦ (person, s)
  | none ↦ allocate cluster s
]

module _ (uuid5 : String → String) (linked : Dict String) (matches : List RuleMatch) (now : ℕ)
    (pipeline_version : String) where
  best_row : String → String → Option RuleMatch → List LinkRow
  unfolding link_row
  best_row person member none = []
  best_row person member (some best) =
      link_row uuid5 person member (method_name best.method) best.confidence best.evidence now
        pipeline_version
      ∷ []

  -- The rows of one round of the inner loop: none or one.
  member_rows : String → String → Result ClusterError (List LinkRow)
  unfolding best_row best_incident
  member_rows person member =
      if is_some (get linked member)
      then ok []
      else (do best ← best_incident member matches; ok (best_row person member best))

  cluster_rows : String → List String → Result ClusterError (List LinkRow)
  unfolding member_rows
  cluster_rows person [] = ok []
  cluster_rows person (m ∷ ms) = do
    row ← member_rows person m
    rest ← cluster_rows person ms
    ok (row ++ rest)

  unfoldable pub build_links :
      {S : Type 0} → Allocator S → List (List String) → S → Result ClusterError (List LinkRow × S)
  unfolding cluster_rows cluster_person
  build_links allocate [] s = ok ([], s)
  build_links allocate (cluster ∷ rest) s =
      let (person, s') = cluster_person linked allocate cluster s in
      do
        rows ← cluster_rows person (sorted cluster)
        (later, s'') ← build_links allocate rest s'
        ok (rows ++ later, s'')

-- 0.5, the score of an ejection
abbrev pub half : Float
half = record { bits = 0x3FE0000000000000 }

unfoldable pub review_item_from_ejection : String × List String → Dict String → Option ReviewItem
review_item_from_ejection (member, cluster) person_by_psr =
    elim (first_known person_by_psr (sorted cluster)) [
      | none ↦ none
      | some person ↦ some (record {
        source_record_id = member;
        candidate_person_id = person;
        score = half;
        method = "same_source_collision";
        features =
            ("rule", str "same-source collision")
            ∷ ("cluster", json_list (map str (sorted cluster)))
            ∷ [];
      })
    ]
