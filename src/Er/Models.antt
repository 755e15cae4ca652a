-- ===== src/Er/Models.antt =====
-- er/models.py: the value objects of the matching stages.
use hacknation_hackathon.Base.{ℕ, String, Bool, Option, none, some, List, [], ◌∷◌, or_else}
use hacknation_hackathon.Base.Dict.{get}
use hacknation_hackathon.Base.Float.{Float}
use hacknation_hackathon.Json.{Json, str, datetime, Row, as_str, get_str, get_list, read}

-- The `method` strings that the stages give to a match. The first nine are METHOD_PRIORITY, in order;
-- `det_name_org` is that of rule D6, which is not in the list.
pub data Method : Type 0 where
  det_orcid det_email det_website det_handle det_linkedin det_crosslink det_hn_repo : Method
  splink llm_adjudication det_name_org : Method

-- `METHOD_PRIORITY.index(method)`; `none` is the ValueError.
abbrev pub method_index : Method → Option ℕ
method_index det_orcid = some 0
method_index det_email = some 1
method_index det_website = some 2
method_index det_handle = some 3
method_index det_linkedin = some 4
method_index det_crosslink = some 5
method_index det_hn_repo = some 6
method_index splink = some 7
method_index llm_adjudication = some 8
method_index det_name_org = none

abbrev pub method_name : Method → String
method_name det_orcid = "det_orcid"
method_name det_email = "det_email"
method_name det_website = "det_website"
method_name det_handle = "det_handle"
method_name det_linkedin = "det_linkedin"
method_name det_crosslink = "det_crosslink"
method_name det_hn_repo = "det_hn_repo"
method_name splink = "splink"
method_name llm_adjudication = "llm_adjudication"
method_name det_name_org = "det_name_org"

pub record RuleMatch : Type 0 where
  pub left : String
  pub right : String
  pub rule : String
  pub method : Method
  pub confidence : Float
  pub auto : Bool
  pub evidence : Row

pub record ScoredPair : Type 0 where
  pub left : String
  pub right : String
  pub probability : Float
  pub comparison : Row

pub record ReviewItem : Type 0 where
  pub source_record_id : String
  pub candidate_person_id : String
  pub score : Float
  pub method : String
  pub features : Row

-- The matching-relevant projection of one row of silver.person_source_record.
pub record PsrView : Type 0 where
  pub source_record_id : String
  pub source : String
  pub source_key : String
  pub full_name : Option String
  pub name_norm : Option String
  pub first_name : Option String
  pub last_name : Option String
  pub email_norms : List String
  pub email_domain : Option String
  pub orcid : Option String
  pub github_login : Option String
  pub website_url_norm : Option String
  pub linkedin_url : Option String
  pub twitter_handle : Option String
  pub affiliation_raw : Option String
  pub org_norm : Option String
  pub location_raw : Option String
  pub country_code : Option String
  pub keywords : List String
  pub bio : Option String
  pub avatar_url : Option String
  pub cv_url : Option String
  pub bronze_ref : Option String
  pub last_seen_at : String

-- `_texts`: the items of a list that are texts.
abbrev pub str_items : List Json → List String
str_items [] = []
str_items (x ∷ xs) = let rest = str_items xs in elim (as_str x) [ some s ↦ s ∷ rest | none ↦ rest ]

-- `_stamp`, over the interpreter's `isoformat`
abbrev stamp : (ℕ → String) → Json → String
stamp isoformat (datetime t) = isoformat t
stamp isoformat (str s) = s
stamp isoformat _ = ""

unfoldable pub psr_view : (ℕ → String) → Row → PsrView
psr_view isoformat row = record {
  source_record_id = or_else (get_str row "source_record_id") "";
  source = or_else (get_str row "source") "";
  source_key = or_else (get_str row "source_key") "";
  full_name = get_str row "full_name";
  name_norm = get_str row "name_norm";
  first_name = get_str row "first_name";
  last_name = get_str row "last_name";
  email_norms = str_items (get_list row "email_norms");
  email_domain = get_str row "email_domain";
  orcid = get_str row "orcid";
  github_login = get_str row "github_login";
  website_url_norm = get_str row "website_url_norm";
  linkedin_url = get_str row "linkedin_url";
  twitter_handle = get_str row "twitter_handle";
  affiliation_raw = get_str row "affiliation_raw";
  org_norm = get_str row "org_norm";
  location_raw = get_str row "location_raw";
  country_code = get_str row "country_code";
  keywords = str_items (get_list row "keywords");
  bio = get_str row "bio";
  avatar_url = get_str row "avatar_url";
  cv_url = get_str row "cv_url";
  bronze_ref = get_str row "bronze_ref";
  last_seen_at = read (stamp isoformat) (get row "last_seen_at");
}
