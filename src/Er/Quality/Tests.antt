-- ===== src/Er/Quality/Tests.antt =====
-- Tests of the model of er/quality.py.
use hacknation_hackathon.Base.{ℕ, String, Bool, true, false, List, [], ◌∷◌, length, All, ◌≡◌, refl}
use hacknation_hackathon.Base.Dict.{Dict, get, insert}
use hacknation_hackathon.Base.Float.{Float}
use hacknation_hackathon.Base.Int.{pos}
use hacknation_hackathon.Base.Sort.{sorted}
use hacknation_hackathon.Json.{bool, int, str, Row}
use hacknation_hackathon.Er.Quality.{linked_pairs, corroborate, sources_of}
use hacknation_hackathon.Er.Quality.Corroborated.{IsSourceSet, IsRated, Covers, corroborate-IsRated}

abbrev link : String → String → String → Row
link person psr status =
    ("person_id", str person) ∷ ("source_record_id", str psr) ∷ ("status", str status) ∷ []

-- Only the active links of one person are paired.
linked_pairs_test :
    linked_pairs (
      link "p1" "b" "active"
      ∷ link "p1" "a" "active"
      ∷ link "p1" "c" "retracted"
      ∷ link "p2" "d" "active"
      ∷ [])
    ≡ ("a", "b") ∷ []
unfolding linked_pairs get insert sorted
linked_pairs_test = refl

abbrev float_is : Float → ℕ → Bool
float_is x n = false

abbrev psr_sources : Dict String
psr_sources = ("psr-1", "github") ∷ ("psr-2", "hacknation") ∷ []

abbrev attesting : Dict (List String)
attesting = ("art-1", "hacknation" ∷ "enrichment" ∷ []) ∷ []

abbrev fact : String → String → Row
fact artifact psr =
    ("artifact_id", str artifact)
    ∷ ("source_record_id", str psr)
    ∷ ("corroboration_count", int (pos 1))
    ∷ ("is_provisional", bool true)
    ∷ []

abbrev facts : List Row
facts = fact "art-1" "psr-1" ∷ fact "art-2" "psr-2" ∷ []

-- The second fact has one source and stays as it is.
corroborate_test : length (corroborate float_is "artifact_id" psr_sources attesting facts) ≡ 1
unfolding corroborate get
corroborate_test = refl

corroborate-IsRated_example :
    ((artifact psr : String)
      → IsSourceSet psr_sources attesting artifact psr
          (sources_of psr_sources attesting artifact psr))
    × All
        (Covers psr_sources attesting "artifact_id" float_is
          (corroborate float_is "artifact_id" psr_sources attesting facts))
        facts
    × All
        (IsRated psr_sources attesting "artifact_id")
        (corroborate float_is "artifact_id" psr_sources attesting facts)
    × (corroborate float_is "artifact_id" psr_sources attesting
          (corroborate float_is "artifact_id" psr_sources attesting facts)
        ≡ [])
corroborate-IsRated_example =
    corroborate-IsRated psr_sources attesting "artifact_id" float_is (refl, refl) facts
