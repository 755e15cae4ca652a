-- ===== src/Er/Connections.antt =====
-- er/connections.py: the collaboration graph, from the artifacts that two persons share. A date is its number of
-- days; datetime.fromisoformat(..).date() and date.fromisoformat are one parameter, as are the arithmetic of doubles
-- and `0.5 ** (days / 365.0)`.
pub mod Once
pub mod Edges
mod Tests
use hacknation_hackathon.Base.{
  ℕ, ◌-◌, String, Bool, true, false, ◌&&◌, ◌||◌, Option, none, some, List, [], ◌∷◌, ◌++◌, map, ◌==◌,
  ltb, leb, or_else, Result, ok, err, ◌>>=◌, or_raise, if◌then◌else◌,
}
use hacknation_hackathon.Base.Dict.{Dict, get, insert}
use hacknation_hackathon.Base.Float.{Float}
use hacknation_hackathon.Base.Order.{by}
use hacknation_hackathon.Base.Sort.{sort_by, sorted, str_lt}
use hacknation_hackathon.Json.{Json, str, Row, get_str, read, as_str}

pub record SharedArtifact : Type 0 where
  pub artifact_id : String
  pub first_seen : ℕ
  pub last_seen : ℕ

-- `_Membership`
pub record Membership : Type 0 where
  pub artifact_id : String
  pub person_id : String
  pub start : Option ℕ
  pub end : Option ℕ

-- A row of silver.person_connection.
pub record Connection : Type 0 where
  pub person_a_id : String
  pub person_b_id : String
  pub connection_type : String
  pub weight : Float
  pub evidence : List String
  pub first_seen : ℕ
  pub last_seen : ℕ
  pub updated_at : ℕ

pub record Calendar : Type 0 where
  pub parse_date : String → Option ℕ
  pub date_of_time : ℕ → ℕ
  pub halved : ℕ → Float
  pub add : Float → Float → Float
  pub round4 : Float → Float

-- The ValueError of a text that is no date.
pub data DateError : Type 0 where
  bad_date : String → DateError

-- FRESH_DAYS
abbrev pub fresh_days : ℕ
fresh_days = 365

abbrev one_point : Float
one_point = record { bits = 0x3FF0000000000000 }

abbrev pub Edge : Type 0
Edge = (String × String) × List SharedArtifact

module _ (cal : Calendar) where
  unfoldable pub decay : ℕ → Float
  decay age_days = if leb age_days fresh_days then one_point else cal.halved age_days

  date_text : Option String → Result DateError (Option ℕ)
  date_text (some text) =
      if text == ""
      then ok none
      else (elim (cal.parse_date text) [ some d ↦ ok (some d) | none ↦ err (bad_date text) ])
  date_text none = ok none

  unfoldable pub date_of : Option Json → Result DateError (Option ℕ)
  unfolding date_text
  date_of value = date_text (read as_str value)

  -- The date of a column, if the table has one.
  column_date : Row → Option String → Result DateError (Option ℕ)
  unfolding date_of
  column_date row (some col) = date_of (get row col)
  column_date row none = ok none

  abbrev or_anchor : Option ℕ → Option ℕ → Option ℕ
  or_anchor (some d) anchor = some d
  or_anchor none anchor = anchor

  linked_person : Dict String → Option String → Option String
  linked_person links (some psr) = get links psr
  linked_person links none = none

  -- One row; a row without its artifact or its linked record is passed over.
  membership :
      Row
      → Option String
      → Option String
      → Option String
      → Option String
      → Dict (Option ℕ)
      → Result DateError (List Membership)
  unfolding column_date
  membership row (some artifact) (some person) start_col end_col fallback_dates = do
    start ← column_date row start_col
    end_date ← column_date row end_col
    ok (
        record {
          artifact_id = artifact;
          person_id = person;
          start = or_anchor start (or_else (get fallback_dates artifact) none);
          end = or_anchor end_date (or_else (get fallback_dates artifact) none);
        }
        ∷ [])
  membership row (some artifact) none start_col end_col fallback_dates = ok []
  membership row none person start_col end_col fallback_dates = ok []

  unfoldable pub memberships :
      List Row
      → Dict String
      → String
      → Option String
      → Option String
      → Dict (Option ℕ)
      → Result DateError (List Membership)
  unfolding membership linked_person
  memberships [] links artifact_col start_col end_col fallback_dates = ok []
  memberships (row ∷ rows) links artifact_col start_col end_col fallback_dates = do
    one ←
        membership row (get_str row artifact_col)
          (linked_person links (get_str row "source_record_id")) start_col end_col fallback_dates
    rest ← memberships rows links artifact_col start_col end_col fallback_dates
    ok (one ++ rest)

-- `max` of the dates that are known, if one is.
abbrev latest : Option ℕ → Option ℕ → Option ℕ
latest (some a) (some b) = some (if ltb a b then b else a)
latest (some a) none = some a
latest none b = b

window : Option ℕ → Option ℕ → Option (ℕ × ℕ)
window (some first) (some last) = some (first, last)
window (some first) none = none
window none last = none

unfoldable pub shared_window : Membership → Membership → Option (ℕ × ℕ)
unfolding window
shared_window a b = window (latest a.start b.start) (latest a.end b.end)

shared_pair : String → Membership → Membership → List ((String × String) × SharedArtifact)
unfolding shared_window
shared_pair artifact a b = if a.person_id == b.person_id then [] else (elim (shared_window a b) [
  | none ↦ []
  | some (start, last) ↦
      (
        (a.person_id, b.person_id),
        record { artifact_id = artifact; first_seen = start; last_seen = last },
      )
      ∷ []
])

pairs_with : String → Membership → List Membership → List ((String × String) × SharedArtifact)
unfolding shared_pair
pairs_with artifact a [] = []
pairs_with artifact a (b ∷ bs) = shared_pair artifact a b ++ pairs_with artifact a bs

pairs_of : String → List Membership → List ((String × String) × SharedArtifact)
unfolding pairs_with
pairs_of artifact [] = []
pairs_of artifact (a ∷ rest) = pairs_with artifact a rest ++ pairs_of artifact rest

unfoldable pub artifact_pairs : String → List Membership → List ((String × String) × SharedArtifact)
unfolding pairs_of
artifact_pairs artifact group = pairs_of artifact (sort_by (by (λ m. m.person_id)) group)

by_artifact : List Membership → Dict (List Membership) → Dict (List Membership)
by_artifact [] d = d
by_artifact (m ∷ ms) d =
    by_artifact ms (insert m.artifact_id (or_else (get d m.artifact_id) [] ++ m ∷ []) d)

abbrev edge_eq : String × String → String × String → Bool
edge_eq (a, b) (c, d) = a == c && b == d

-- `edges.setdefault(pair, []).append(shared)`
add_edge : String × String → SharedArtifact → List Edge → List Edge
add_edge pair shared [] = (pair, shared ∷ []) ∷ []
add_edge pair shared ((key, artifacts) ∷ edges) =
    let rest = add_edge pair shared edges in
    if edge_eq key pair then (key, artifacts ++ shared ∷ []) ∷ edges else (key, artifacts) ∷ rest

add_edges : List ((String × String) × SharedArtifact) → List Edge → List Edge
unfolding add_edge
add_edges [] edges = edges
add_edges ((pair, shared) ∷ rest) edges = add_edges rest (add_edge pair shared edges)

groups_edges : List (String × List Membership) → List Edge → List Edge
unfolding add_edges artifact_pairs
groups_edges [] edges = edges
groups_edges ((artifact, group) ∷ groups) edges =
    groups_edges groups (add_edges (artifact_pairs artifact group) edges)

unfoldable pub pair_edges : List Membership → List Edge
unfolding by_artifact groups_edges
pair_edges members =
    groups_edges (sort_by (by (λ (g : String × List Membership). g.0)) (by_artifact members [])) []

abbrev edge_lt : Edge → Edge → Bool
edge_lt ((a, b), s) ((c, d), t) = str_lt a c || (a == c && str_lt b d)

abbrev smallest : ℕ → List ℕ → ℕ
smallest m [] = m
smallest m (n ∷ ns) = smallest (if ltb n m then n else m) ns

abbrev largest : ℕ → List ℕ → ℕ
largest m [] = m
largest m (n ∷ ns) = largest (if ltb m n then n else m) ns

-- `min(...)` and `max(...)` of the artifacts of an edge, which has one at least.
first_of_all : List ℕ → ℕ
first_of_all [] = 0
first_of_all (n ∷ ns) = smallest n ns

last_of_all : List ℕ → ℕ
last_of_all [] = 0
last_of_all (n ∷ ns) = largest n ns

-- A member without an end date ends when it starts.
abbrev closed : Membership → Membership
closed m = record m { end = elim m.end [ some d ↦ some d | none ↦ m.start ] }

module _ (cal : Calendar) where
  sum_decay : ℕ → Float → List SharedArtifact → Float
  unfolding decay
  sum_decay today total [] = total
  sum_decay today total (s ∷ shared) =
      sum_decay today (cal.add total (decay cal (today - s.last_seen))) shared

  edge_row : String → ℕ → Edge → Connection
  unfolding sum_decay first_of_all last_of_all
  edge_row connection_type now ((person_a, person_b), shared) = record {
    person_a_id = person_a;
    person_b_id = person_b;
    connection_type = connection_type;
    weight = cal.round4 (sum_decay (cal.date_of_time now) (record { bits = 0 }) shared);
    evidence = sorted (map (λ s. s.artifact_id) shared);
    first_seen = first_of_all (map (λ s. s.first_seen) shared);
    last_seen = last_of_all (map (λ s. s.last_seen) shared);
    updated_at = now;
  }

  unfoldable pub edge_rows : String → ℕ → List Edge → List Connection
  unfolding edge_row
  edge_rows connection_type now edges = map (edge_row connection_type now) (sort_by edge_lt edges)

  published_dates : List Row → Dict (Option ℕ) → Result DateError (Dict (Option ℕ))
  published_dates [] d = ok d
  published_dates (row ∷ rows) d =
      elim (get_str row "publication_id") as (λ _. Result DateError (Dict (Option ℕ))) [
        | none ↦ published_dates rows d
        | some id ↦ do
          date ← date_of cal (get row "published_at")
          published_dates rows (insert id date d)
      ]

  unfoldable pub build_connections :
      List Row
      → List Row
      → List Row
      → List Row
      → Dict String
      → ℕ
      → Result DateError (List Connection)
  unfolding published_dates memberships pair_edges edge_rows
  build_connections authorships contributions officers publications active_links now = do
    published ← published_dates publications []
    coauthors ← memberships cal authorships active_links "publication_id" none none published
    contributors ←
        memberships cal contributions active_links "project_id" (some "first_commit_at")
          (some "last_commit_at") []
    officerships ←
        memberships cal officers active_links "company_id" (some "registered_at")
          (some "deregistered_at") []
    ok (
        edge_rows "coauthor" now (pair_edges coauthors)
        ++ (edge_rows "co_contributor" now (pair_edges contributors)
            ++ edge_rows "co_officer" now (pair_edges (map closed officerships))))
