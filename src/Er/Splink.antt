-- ===== src/Er/Splink.antt =====
-- er/splink_job.py: the bands of a score, the features of a comparison and the pairs around the Splink call.
-- `_predict`, which is all calls of splink and pandas, is an argument.
use hacknation_hackathon.Base.{
  ℕ, String, Bool, true, false, not, ◌||◌, Option, none, some, List, [], ◌∷◌, map, ◌==◌, eqb,
  is_some, length, ltb, select, head?, if◌then◌else◌,
}
use hacknation_hackathon.Base.Dict.{Dict, get}
use hacknation_hackathon.Base.Float.{Float, float_le}
use hacknation_hackathon.Base.Int.{ℤ, pos, negsuc}
use hacknation_hackathon.Base.Sort.{sort_by, str_lt}
use hacknation_hackathon.Json.{
  nullable, Json, null, bool, int, float, str, obj, Row, json_dict, json_list, entries,
}
use hacknation_hackathon.Er.Crosslinks.{ordered}
use hacknation_hackathon.Er.Models.{PsrView, ScoredPair}

-- BAND_AUTO (0.90), BAND_ADJUDICATE (0.60) and BAND_REVIEW (0.45)
abbrev pub band_auto : Float
band_auto = record { bits = 0x3feccccccccccccd }

abbrev pub band_adjudicate : Float
band_adjudicate = record { bits = 0x3FE3333333333333 }

abbrev pub band_review : Float
band_review = record { bits = 0x3FDCCCCCCCCCCCCD }

pub data Band : Type 0 where
  auto_band adjudicate_band review_band drop_band : Band

unfoldable pub band_of : Float → Band
band_of probability =
    if float_le band_auto probability
    then auto_band
    else if float_le band_adjudicate probability
    then adjudicate_band
    else if float_le band_review probability
    then review_band
    else drop_band

-- The exact-match level of a column; 1 if it has none of its own.
abbrev top_level : String → ℕ
top_level column =
    if column == "name_norm" || column == "primary_email_norm"
    then 4
    else if column == "keywords"
    then 2
    else 1

unfoldable pub label : String → ℤ → String
label column (negsuc n) = "null"
label column (pos n) =
    if eqb n (top_level column) then "exact" else if eqb n 0 then "mismatch" else "partial"

-- `isinstance(value, int)`: a bool is one.
abbrev as_level : Json → Option ℤ
as_level (int n) = some n
as_level (bool true) = some (pos 1)
as_level (bool false) = some (pos 0)
as_level _ = none

labels : Row → Row
unfolding label
labels [] = []
labels ((column, value) ∷ vector) =
    let rest = labels vector in
    elim (as_level value) [ some n ↦ (column, str (label column n)) ∷ rest | none ↦ rest ]

features_of : Option Json → Row
unfolding labels
features_of (some (obj vector)) = labels (entries vector)
features_of (some _) = []
features_of none = []

unfoldable pub features_from_vector : Row → Row
unfolding features_of
features_from_vector comparison = features_of (get comparison "comparison_vector")

-- Both members have an active link: the pair is out of play.
unfoldable pub filter_unlinked_pairs : List ScoredPair → Dict String → List ScoredPair
filter_unlinked_pairs pairs linked =
    select (λ p. not (is_some (get linked p.left)) || not (is_some (get linked p.right))) pairs

-- One row that `_predict` returns, its columns as their types.
pub record Prediction : Type 0 where
  pub unique_id_l : String
  pub unique_id_r : String
  pub match_probability : Float
  pub gamma : String → ℤ

abbrev comparison_columns : List String
comparison_columns =
    "name_norm" ∷ "primary_email_norm" ∷ "org_norm" ∷ "country_code" ∷ "keywords" ∷ []

-- An empty list becomes NULL.
abbrev list_or_null : List String → Json
list_or_null [] = null
list_or_null (x ∷ xs) = json_list (map str (x ∷ xs))

-- `_record`
unfoldable pub splink_record : PsrView → Row
splink_record view =
    ("unique_id", str view.source_record_id)
    ∷ ("name_norm", nullable view.name_norm)
    ∷ ("first_name", nullable view.first_name)
    ∷ ("last_name", nullable view.last_name)
    ∷ ("primary_email_norm", nullable (head? view.email_norms))
    ∷ ("email_domain", nullable view.email_domain)
    ∷ ("org_norm", nullable view.org_norm)
    ∷ ("country_code", nullable view.country_code)
    ∷ ("github_login", nullable view.github_login)
    ∷ ("keywords", list_or_null view.keywords)
    ∷ []

abbrev by_pair : ScoredPair → ScoredPair → Bool
by_pair p q =
    if str_lt p.left q.left
    then true
    else if str_lt q.left p.left
    then false
    else str_lt p.right q.right

module _ (predict : Bool → List Row → List Prediction) (round6 : Float → Float) where
  scored : Prediction → ScoredPair
  scored row =
      let (left, right) = ordered row.unique_id_l row.unique_id_r in
      record {
        left = left;
        right = right;
        probability = row.match_probability;
        comparison =
            (
              "comparison_vector",
              json_dict (map (λ column. (column, int (row.gamma column))) comparison_columns),
            )
            ∷ ("probability", float (round6 row.match_probability))
            ∷ [];
      }

  -- A single record has no pairs.
  unfoldable pub score_pairs : List PsrView → Bool → List ScoredPair
  unfolding scored splink_record
  score_pairs views train =
      if ltb (length views) 2
      then []
      else sort_by by_pair (map scored (predict train (map splink_record views)))
