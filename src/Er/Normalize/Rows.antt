-- ===== src/Er/Normalize/Rows.antt =====
-- contracts/models.py, er/models.py: what the matching stages read of a normalized record.
use hacknation_hackathon.Base.{
  ℕ, String, ◌≡◌, refl, ap, ◌∙◌, Option, none, some, List, [], ◌∷◌, map,
}
use hacknation_hackathon.Base.Dict.{get}
use hacknation_hackathon.Json.{nullable, str, items-to_items, as_str}
use hacknation_hackathon.Er.Models.{PsrView, psr_view, str_items}
use hacknation_hackathon.Er.Normalize.{PersonSourceRecord, to_row}

str_items-texts : (xs : List String) → str_items (map str xs) ≡ xs
str_items-texts [] = refl
str_items-texts (x ∷ xs) = λ i. x ∷ str_items-texts xs i

text_of-nullable : (o : Option String) → as_str (nullable o) ≡ o
text_of-nullable none = refl
text_of-nullable (some s) = refl

-- What the matching stages are to see of a record.
abbrev pub view_of : (ℕ → String) → PersonSourceRecord → PsrView
view_of isoformat r = record {
  source_record_id = r.source_record_id;
  source = r.source;
  source_key = r.source_key;
  full_name = r.full_name;
  name_norm = r.name_norm;
  first_name = r.first_name;
  last_name = r.last_name;
  email_norms = r.email_norms;
  email_domain = r.email_domain;
  orcid = r.orcid;
  github_login = r.github_login;
  website_url_norm = r.website_url_norm;
  linkedin_url = r.linkedin_url;
  twitter_handle = r.twitter_handle;
  affiliation_raw = r.affiliation_raw;
  org_norm = r.org_norm;
  location_raw = r.location_raw;
  country_code = r.country_code;
  keywords = r.keywords;
  bio = r.bio;
  avatar_url = r.avatar_url;
  cv_url = r.cv_url;
  bronze_ref = r.bronze_ref;
  last_seen_at = isoformat r.last_seen_at;
}

-- What the matching stages read from the row of a normalized record is the record: every field of
-- the view is the field of the record of that name, and the time of the last sighting is its ISO
-- text.
pub psr_view-to_row :
    (isoformat : ℕ → String) (r : PersonSourceRecord)
    → psr_view isoformat (to_row r) ≡ view_of isoformat r
unfolding psr_view to_row get
psr_view-to_row isoformat r = λ i. record {
  source_record_id = r.source_record_id;
  source = r.source;
  source_key = r.source_key;
  full_name = text_of-nullable r.full_name i;
  name_norm = text_of-nullable r.name_norm i;
  first_name = text_of-nullable r.first_name i;
  last_name = text_of-nullable r.last_name i;
  email_norms =
      (ap str_items (items-to_items (map str r.email_norms)) ∙ str_items-texts r.email_norms) i;
  email_domain = text_of-nullable r.email_domain i;
  orcid = text_of-nullable r.orcid i;
  github_login = text_of-nullable r.github_login i;
  website_url_norm = text_of-nullable r.website_url_norm i;
  linkedin_url = text_of-nullable r.linkedin_url i;
  twitter_handle = text_of-nullable r.twitter_handle i;
  affiliation_raw = text_of-nullable r.affiliation_raw i;
  org_norm = text_of-nullable r.org_norm i;
  location_raw = text_of-nullable r.location_raw i;
  country_code = text_of-nullable r.country_code i;
  keywords = (ap str_items (items-to_items (map str r.keywords)) ∙ str_items-texts r.keywords) i;
  bio = text_of-nullable r.bio i;
  avatar_url = text_of-nullable r.avatar_url i;
  cv_url = text_of-nullable r.cv_url i;
  bronze_ref = text_of-nullable r.bronze_ref i;
  last_seen_at = isoformat r.last_seen_at;
}
