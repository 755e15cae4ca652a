-- ===== src/Er/Normalize.antt =====
-- The records that er/normalize.py derives (PersonSourceRecord of contracts/models.py) and its filter of erased
-- identities. sha256 and `str` of a value that is no text are parameters; a set of pairs is the list of its members.
pub mod Rows
mod Tests
use hacknation_hackathon.Base.{
  ℕ, String, Bool, true, false, not, ◌&&◌, ◌||◌, Option, none, some, List, [], ◌∷◌, map, ◌==◌, any,
  select, if◌then◌else◌,
}
use hacknation_hackathon.Base.Dict.{get}
use hacknation_hackathon.Json.{nullable, Json, null, str, datetime, Row, get_str, json_list}

pub record PersonSourceRecord : Type 0 where
  pub source_record_id : String
  pub source : String
  pub source_key : String
  pub bronze_ref : Option String
  pub full_name : Option String
  pub name_norm : Option String
  pub first_name : Option String
  pub last_name : Option String
  pub emails : List String
  pub email_norms : List String
  pub email_domain : Option String
  pub orcid : Option String
  pub github_login : Option String
  pub website_url_norm : Option String
  pub linkedin_url : Option String
  pub twitter_handle : Option String
  pub affiliation_raw : Option String
  pub org_norm : Option String
  pub location_raw : Option String
  pub country_code : Option String
  pub keywords : List String
  pub bio : Option String
  pub source_url : String
  pub first_seen_at : ℕ
  pub last_seen_at : ℕ
  pub scraped_at : ℕ
  pub ingested_at : ℕ
  pub avatar_url : Option String
  pub cv_url : Option String

unfoldable pub to_row : PersonSourceRecord → Row
to_row r =
    ("source_record_id", str r.source_record_id)
    ∷ ("source", str r.source)
    ∷ ("source_key", str r.source_key)
    ∷ ("bronze_ref", nullable r.bronze_ref)
    ∷ ("full_name", nullable r.full_name)
    ∷ ("name_norm", nullable r.name_norm)
    ∷ ("first_name", nullable r.first_name)
    ∷ ("last_name", nullable r.last_name)
    ∷ ("emails", json_list (map str r.emails))
    ∷ ("email_norms", json_list (map str r.email_norms))
    ∷ ("email_domain", nullable r.email_domain)
    ∷ ("orcid", nullable r.orcid)
    ∷ ("github_login", nullable r.github_login)
    ∷ ("website_url_norm", nullable r.website_url_norm)
    ∷ ("linkedin_url", nullable r.linkedin_url)
    ∷ ("twitter_handle", nullable r.twitter_handle)
    ∷ ("affiliation_raw", nullable r.affiliation_raw)
    ∷ ("org_norm", nullable r.org_norm)
    ∷ ("location_raw", nullable r.location_raw)
    ∷ ("country_code", nullable r.country_code)
    ∷ ("keywords", json_list (map str r.keywords))
    ∷ ("bio", nullable r.bio)
    ∷ ("source_url", str r.source_url)
    ∷ ("first_seen_at", datetime r.first_seen_at)
    ∷ ("last_seen_at", datetime r.last_seen_at)
    ∷ ("scraped_at", datetime r.scraped_at)
    ∷ ("ingested_at", datetime r.ingested_at)
    ∷ ("avatar_url", nullable r.avatar_url)
    ∷ ("cv_url", nullable r.cv_url)
    ∷ []

-- `str(row.get(key))`
abbrev pub column_text : (Option Json → String) → Row → String → String
column_text show_value row key = elim (get_str row key) as (λ _. String) [
  | some s ↦ s
  | none ↦ show_value (get row key)
]

unfoldable pub suppressed_keys : (Option Json → String) → List Row → List (String × String)
suppressed_keys show_value rows =
    map (λ row. (column_text show_value row "source", column_text show_value row "source_key_hash"))
      rows

abbrev pub is_member : String × String → List (String × String) → Bool
is_member (a, b) keys = any (λ ((c, d) : String × String). c == a && d == b) keys

-- `source_key_hash` is the parameter `sha256`.
unfoldable pub apply_suppression :
    (String → String) → List PersonSourceRecord → List (String × String) → List PersonSourceRecord
apply_suppression sha256 records suppressed =
    select (λ r. not (is_member (r.source, sha256 r.source_key) suppressed)) records
