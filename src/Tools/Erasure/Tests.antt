-- ===== src/Tools/Erasure/Tests.antt =====
-- The erasure of a person with one GitHub record.
use hacknation_hackathon.Base.{false, ◌≡◌, refl, ◌==◌, ◌&&◌, none, some, [], ◌∷◌, All}
use hacknation_hackathon.Base.Dict.{get}
use hacknation_hackathon.Base.Sort.{sorted}
use hacknation_hackathon.Json.{str, datetime, Row}
use hacknation_hackathon.Er.Normalize.{PersonSourceRecord, apply_suppression, suppressed_keys}
use hacknation_hackathon.Tools.Erasure.{
  Tables, Interpreter, plan_erasure, source_keys, person_psrs, linked_ids, person_links,
}
use hacknation_hackathon.Tools.Erasure.Suppression.{plan_erasure-suppresses}
use mathlib.Core.List.{Memᴰ}

abbrev py : Interpreter
py = record {
  sha256 = λ s. s;
  show_value = λ v. "None";
  normal_int = λ s. some s;
  fromisoformat = λ s. some 3;
}

abbrev psr : Row
psr = ("source_record_id", str "a1") ∷ ("source", str "github") ∷ ("source_key", str "77") ∷ []

abbrev tables : Tables
tables =
    ("silver.person", (("person_id", str "p1") ∷ []) ∷ [])
    ∷ (
      "silver.person_source_link",
      (("person_id", str "p1") ∷ ("source_record_id", str "a1") ∷ []) ∷ [],
    )
    ∷ ("silver.person_source_record", psr ∷ [])
    ∷ []

abbrev scraped_again : PersonSourceRecord
scraped_again = record {
  source_record_id = "a1";
  source = "github";
  source_key = "77";
  bronze_ref = none;
  full_name = some "Ada L";
  name_norm = none;
  first_name = none;
  last_name = none;
  emails = [];
  email_norms = [];
  email_domain = none;
  orcid = none;
  github_login = none;
  website_url_norm = none;
  linkedin_url = none;
  twitter_handle = none;
  affiliation_raw = none;
  org_norm = none;
  location_raw = none;
  country_code = none;
  keywords = [];
  bio = none;
  source_url = "";
  first_seen_at = 1;
  last_seen_at = 1;
  scraped_at = 1;
  ingested_at = 1;
  avatar_url = none;
  cv_url = none;
}

abbrev suppressed : Row
suppressed =
    ("source", str "github") ∷ ("source_key_hash", str "77") ∷ ("created_at", datetime 7) ∷ []

plan_erasure-suppresses_example :
    All
      (λ r. (r.source == "github" && r.source_key == "77") ≡ false)
      (apply_suppression py.sha256
        (scraped_again ∷ [])
        (suppressed_keys py.show_value (suppressed ∷ [])))
unfolding plan_erasure get source_keys person_psrs linked_ids person_links sorted
plan_erasure-suppresses_example =
    plan_erasure-suppresses py "p1" tables "full" 7 "dpo" "e1" refl psr (Memᴰ.head refl) refl []
      (scraped_again ∷ [])
