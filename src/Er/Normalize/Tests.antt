-- ===== src/Er/Normalize/Tests.antt =====
-- A normalized record read back from its row.
use hacknation_hackathon.Base.{◌≡◌, none, some, [], ◌∷◌}
use hacknation_hackathon.Er.Models.{psr_view}
use hacknation_hackathon.Er.Normalize.{PersonSourceRecord, to_row}
use hacknation_hackathon.Er.Normalize.Rows.{view_of, psr_view-to_row}

abbrev ada : PersonSourceRecord
ada = record {
  source_record_id = "a1";
  source = "github";
  source_key = "77";
  bronze_ref = none;
  full_name = some "Ada L";
  name_norm = none;
  first_name = none;
  last_name = none;
  emails = [];
  email_norms = "ada@example.org" ∷ [];
  email_domain = none;
  orcid = none;
  github_login = none;
  website_url_norm = none;
  linkedin_url = none;
  twitter_handle = none;
  affiliation_raw = none;
  org_norm = none;
  location_raw = none;
  country_code = none;
  keywords = [];
  bio = none;
  source_url = "";
  first_seen_at = 1;
  last_seen_at = 1;
  scraped_at = 1;
  ingested_at = 1;
  avatar_url = none;
  cv_url = none;
}

psr_view-to_row_example :
    psr_view (λ t. "2026-01-01") (to_row ada) ≡ view_of (λ t. "2026-01-01") ada
psr_view-to_row_example = psr_view-to_row (λ t. "2026-01-01") ada
