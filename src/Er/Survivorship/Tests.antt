-- ===== src/Er/Survivorship/Tests.antt =====
-- Stage 5 run on two records of one person.
use hacknation_hackathon.Base.{
  ℕ, suc, String, false, ◌≡◌, refl, some, none, List, [], ◌∷◌, map, any, count, All, ok,
  if◌then◌else◌, eqb,
}
use hacknation_hackathon.Base.Dict.{Dict, get, insert}
use hacknation_hackathon.Base.Float.{float_lt}
use hacknation_hackathon.Base.Sort.{sorted}
use hacknation_hackathon.Json.{null, str, float, datetime, arr, nil, Row, get_str}
use hacknation_hackathon.Er.Models.{psr_view}
use hacknation_hackathon.Er.Adjudicate.{Services}
use hacknation_hackathon.Er.Survivorship.{
  Numbers, ranked_views, emails_of, most_recent_affiliation, conflicts_of, independent_sources,
}
use hacknation_hackathon.Er.Survivorship.Build.{build_persons, backfill_person_id}
use hacknation_hackathon.Er.Survivorship.Build.Persons.{
  person_ids, linked_to, build_persons_lem, Reaches, active_person, HasPerson,
  backfill_person_id-HasPerson,
}

abbrev numbers : Numbers
numbers = record {
  unicode = record {
    strip = λ s. s;
    lower = λ s. s;
    nfkd = λ s. s;
    is_combining = λ c. false;
    is_space = λ c. eqb c 32;
  };
  add = λ x y. x;
  mul = λ x n. x;
  round2 = λ x. x;
  of_int = λ n. record { bits = 0 };
  show_int = λ n. "0";
  isoformat = λ t. "2026-01-01";
  fromisoformat = λ s. some 3;
}

abbrev services : Services String ℕ
services = record {
  complete = λ prompt s. (ok (record { text = "Engineer"; parsed = none; model = "m1" }), suc s);
  clock = λ s. (7, s);
  uuid5 = λ s. s;
  dumps = λ row. "{}";
  loads = λ text. none;
  show_value = λ v. "None";
}

abbrev psr_rows : List Row
psr_rows =
    (("source_record_id", str "a1") ∷ ("source", str "github") ∷ ("full_name", str "Ada L") ∷ [])
    ∷ (("source_record_id", str "b1") ∷ ("source", str "hacknation") ∷ [])
    ∷ []

abbrev links : Dict String
links = ("a1", "p1") ∷ ("b1", "p1") ∷ []

abbrev person : Row
person =
    ("person_id", str "p1")
    ∷ ("full_name", str "Ada L")
    ∷ ("display_name", str "Ada L")
    ∷ ("primary_email", null)
    ∷ ("emails", arr nil)
    ∷ ("github_login", null)
    ∷ ("orcid", null)
    ∷ ("website_url", null)
    ∷ ("linkedin_url", null)
    ∷ ("cv_url", null)
    ∷ ("twitter_handle", null)
    ∷ ("affiliation", null)
    ∷ ("location", null)
    ∷ ("country_code", null)
    ∷ ("headline", str "Engineer")
    ∷ ("avatar_url", null)
    ∷ ("data_quality_score", float (record { bits = 0x3FE0000000000000 }))
    ∷ ("status", str "active")
    ∷ ("merged_into_person_id", null)
    ∷ ("created_at", datetime 7)
    ∷ ("updated_at", datetime 7)
    ∷ []

build_persons_lem_example :
    (people : List String) × (person_ids (person ∷ []) ≡ map some people)
    × ((p : String)
        → count p people ≡ (if any (linked_to numbers services links p) psr_rows then 1 else 0))
unfolding build_persons get sorted psr_view insert ranked_views emails_of most_recent_affiliation
    float_lt conflicts_of independent_sources
build_persons_lem_example =
    build_persons_lem numbers services psr_rows links [] [] [] 0 {r = ((person ∷ [], []), 1)} refl

abbrev officers : List Row
officers =
    (("officer_id", str "o1") ∷ ("source_record_id", str "b1") ∷ ("person_id", str "p0") ∷ [])
    ∷ (("officer_id", str "o2") ∷ ("source_record_id", str "c1") ∷ [])
    ∷ []

backfill_person_id-HasPerson_example :
    All
      (λ row.
        Reaches
          (backfill_person_id officers links)
          row
          (active_person links (get_str row "source_record_id")))
      officers
    × All (HasPerson links) (backfill_person_id officers links)
    × (backfill_person_id (backfill_person_id officers links) links ≡ [])
backfill_person_id-HasPerson_example = backfill_person_id-HasPerson links officers
