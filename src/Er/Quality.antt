-- ===== src/Er/Quality.antt =====
-- er/quality.py: `linked_pairs` and `corroborate`. `precision_report` divides doubles and is not modelled. A set is
-- the list of its members, and an unordered pair the two ids in ascending order.
pub mod Sources
pub mod Corroborated
mod Tests
use hacknation_hackathon.Base.{
  ℕ, String, Bool, true, false, not, ◌&&◌, Option, none, some, List, [], ◌∷◌, ◌++◌, map, ◌==◌, eqb,
  ltb, length, contains, concat, select, or_else, if◌then◌else◌,
}
use hacknation_hackathon.Base.Dict.{Dict, get, insert, values}
use hacknation_hackathon.Base.Float.{Float}
use hacknation_hackathon.Base.Int.{ℤ, pos, negsuc}
use hacknation_hackathon.Base.Sort.{sorted}
use hacknation_hackathon.Er.Allocator.{status_is_active}
use hacknation_hackathon.Json.{Json, null, bool, int, float, str, datetime, arr, obj, Row, get_str}

abbrev pub provisional_threshold : ℕ
provisional_threshold = 2

abbrev dependent_sources : List String
dependent_sources = "enrichment" ∷ []

add_member : String → String → Dict (List String) → Dict (List String)
add_member person psr by_person =
    insert person (or_else (get by_person person) [] ++ (psr ∷ [])) by_person

add_row : Option String → Option String → Bool → Dict (List String) → Dict (List String)
unfolding add_member
add_row (some person) (some psr) true by_person = add_member person psr by_person
add_row (some person) (some psr) false by_person = by_person
add_row (some person) none active by_person = by_person
add_row none psr active by_person = by_person

members_by_person : List Row → Dict (List String) → Dict (List String)
unfolding add_row
members_by_person [] by_person = by_person
members_by_person (row ∷ rows) by_person = members_by_person rows (
    add_row (get_str row "person_id") (get_str row "source_record_id") (status_is_active row)
      by_person)

-- Each member with those after it.
pairs_of : List String → List (String × String)
pairs_of [] = []
pairs_of (a ∷ rest) = map (λ b. (a, b)) rest ++ pairs_of rest

unfoldable pub linked_pairs : List Row → List (String × String)
unfolding members_by_person pairs_of
linked_pairs link_rows =
    concat (map (λ members. pairs_of (sorted members)) (values (members_by_person link_rows [])))

-- `sources.add(source)`
unfoldable pub add_source : String → List String → List String
add_source source sources = if contains source sources then sources else source ∷ sources

-- `set(sources)`
unfoldable pub to_set : List String → List String
unfolding add_source
to_set [] = []
to_set (source ∷ sources) = add_source source (to_set sources)

unfoldable pub add_own : Option String → List String → List String
unfolding add_source
add_own (some own) sources = add_source own sources
add_own none sources = sources

abbrev pub independent : String → Bool
independent source = not (contains source dependent_sources)

abbrev pub updated : Row → ℕ → Row
updated row n =
    insert "is_provisional" (bool (ltb n provisional_threshold))
      (insert "corroboration_count" (int (pos n)) row)

module _ (psr_sources : Dict String) (attesting : Dict (List String)) where
  -- `sources - _DEPENDENT_SOURCES`
  unfoldable pub sources_of : String → String → List String
  unfolding to_set add_own
  sources_of artifact psr =
      select independent
        (add_own (get psr_sources psr) (to_set (or_else (get attesting artifact) [])))

-- `float_is x n` is the interpreter's `x == n`.
module _ (float_is : Float → ℕ → Bool) where
  -- `value == n`; True is 1 and False is 0.
  unfoldable pub is_number : Option Json → ℕ → Bool
  is_number (some (int (pos m))) n = eqb m n
  is_number (some (int (negsuc m))) n = false
  is_number (some (bool b)) n = if b then eqb 1 n else eqb 0 n
  is_number (some (float x)) n = float_is x n
  is_number (some null) n = false
  is_number (some (str s)) n = false
  is_number (some (datetime t)) n = false
  is_number (some (arr xs)) n = false
  is_number (some (obj fs)) n = false
  is_number none n = false

  -- `value == b`
  abbrev pub is_truth : Option Json → Bool → Bool
  is_truth value b = is_number value (if b then 1 else 0)

  abbrev pub is_current : Row → ℕ → Bool
  is_current row n =
      is_number (get row "corroboration_count") n
      && is_truth (get row "is_provisional") (ltb n provisional_threshold)

  abbrev pub rate : Row → ℕ → List Row
  rate row n = if is_current row n then [] else updated row n ∷ []

  module _ (artifact_col : String) (psr_sources : Dict String)
      (attesting : Dict (List String)) where
    unfoldable pub corroborate_row : Row → Option String → Option String → List Row
    unfolding is_number sources_of
    corroborate_row row (some artifact) (some psr) =
        rate row (length (sources_of psr_sources attesting artifact psr))
    corroborate_row row (some artifact) none = []
    corroborate_row row none psr = []

    unfoldable pub corroborate : List Row → List Row
    unfolding corroborate_row
    corroborate [] = []
    corroborate (row ∷ fact_rows) =
        corroborate_row row (get_str row artifact_col) (get_str row "source_record_id")
        ++ corroborate fact_rows
