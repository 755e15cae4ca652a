-- ===== src/Er/Survivorship.antt =====
-- er/survivorship.py, stage 5: one golden person from its linked records, and the refresh of the person ids on
-- the fact rows.
pub mod Build
mod Tests
use hacknation_hackathon.Base.{
  ℕ, zero, suc, ◌-◌, String, Bool, true, false, not, ◌&&◌, ◌||◌, Option, none, some, List, [], ◌∷◌,
  ◌++◌, map, ◌==◌, eqb, ltb, leb, contains, select, any, length, head?, is_some, or_else, Result,
  ok, err, ◌>>=◌, or_raise, if◌then◌else◌,
}
use hacknation_hackathon.Base.Dict.{Dict, get, insert, setdefault, keys}
use hacknation_hackathon.Base.Float.{Float, float_lt}
use hacknation_hackathon.Base.Sort.{sort_by, sorted, str_lt}
use hacknation_hackathon.Base.Text.{join}
use hacknation_hackathon.Json.{Json, null, str, float, datetime, Row, get_str, get_map, json_list}
use hacknation_hackathon.Tools.Norm.{Unicode, rstrip, words}
use hacknation_hackathon.Er.Adjudicate.{Services, LlmResponse}
use hacknation_hackathon.Er.Crosslinks.{
  hacknation_source, hacknation_member_entries, hacknation_user_id,
}
use hacknation_hackathon.Er.Models.{PsrView, psr_view}
use hacknation_hackathon.Base.Int.{ℤ}

-- SOURCE_PRECEDENCE, DEPENDENT_SOURCES and _CURATED_SOURCES
abbrev source_precedence : List String
source_precedence =
    "interview" ∷ "github" ∷ "openalex_author" ∷ "arxiv_author" ∷ "enrichment" ∷ "zefix_officer"
    ∷ "hacknation" ∷ []

abbrev dependent_sources : List String
dependent_sources = "enrichment" ∷ []

abbrev curated_sources : List String
curated_sources = "openalex_author" ∷ []

pub record FieldConflict : Type 0 where
  pub person_id : String
  pub field : String
  pub values : List String

-- The arithmetic of doubles, `round` to two places, `str` of an int and datetime.fromisoformat (`none` for a
-- ValueError), beside the text functions.
pub record Numbers : Type 0 where
  pub unicode : Unicode
  pub add : Float → Float → Float
  pub mul : Float → ℕ → Float
  pub round2 : Float → Float
  pub of_int : ℤ → Float
  pub show_int : ℤ → String
  pub isoformat : ℕ → String
  pub fromisoformat : String → Option ℕ

pub data SurvivorshipError (E : Type 0) : Type 0 where
  client_failed : E → SurvivorshipError E
  bad_timestamp : String → SurvivorshipError E

-- The position in the list, or the length of the list.
unfoldable pub index : String → List String → ℕ
index source [] = 0
index source (s ∷ rest) = if s == source then 0 else suc (index source rest)

unfoldable pub precedence : String → ℕ
unfolding index
precedence source = index source source_precedence

before_view : PsrView → PsrView → Bool
unfolding precedence
before_view a b =
    if ltb (precedence a.source) (precedence b.source)
    then true
    else if ltb (precedence b.source) (precedence a.source)
    then false
    else str_lt a.source_record_id b.source_record_id

unfoldable pub ranked_views : List PsrView → List PsrView
unfolding before_view
ranked_views = sort_by before_view

-- `_first` of a field over the records.
abbrev first_of : (PsrView → Option String) → List PsrView → Option String
first_of f [] = none
first_of f (v ∷ vs) = elim (f v) [ some x ↦ some x | none ↦ first_of f vs ]

abbrev text_length : String → ℕ
text_length String.[] = 0
text_length (String.◌∷◌ c s) = suc (text_length s)

abbrev keep_some : Option String → List String → List String
keep_some (some x) xs = x ∷ xs
keep_some none xs = xs

-- The values of a field that are not None.
abbrev present : (PsrView → Option String) → List PsrView → List String
present f [] = []
present f (v ∷ vs) = keep_some (f v) (present f vs)

-- The most recent of two holders of an affiliation; the first one if neither is ahead.
later_holder : PsrView → PsrView → PsrView
unfolding precedence
later_holder best v =
    if str_lt best.last_seen_at v.last_seen_at
    then v
    else if str_lt v.last_seen_at best.last_seen_at
    then best
    else if ltb (precedence v.source) (precedence best.source)
    then v
    else best

holder : PsrView → List PsrView → PsrView
unfolding later_holder
holder best [] = best
holder best (v ∷ vs) = holder (later_holder best v) vs

affiliation_of : List PsrView → Option String
unfolding holder
affiliation_of [] = none
affiliation_of (v ∷ vs) = (holder v vs).affiliation_raw

unfoldable pub most_recent_affiliation : List PsrView → Option String
unfolding affiliation_of
most_recent_affiliation ranked = affiliation_of (select (λ v. is_some v.affiliation_raw) ranked)

-- `observed.setdefault(email, None)`, by the keys in their order
abbrev note_email : List String → String → List String
note_email seen email = if contains email seen then seen else seen ++ email ∷ []

abbrev note_emails : List String → List String → List String
note_emails seen [] = seen
note_emails seen (e ∷ es) = note_emails (note_email seen e) es

abbrev emails_from : List String → List PsrView → List String
emails_from seen [] = seen
emails_from seen (v ∷ vs) = emails_from (note_emails seen v.email_norms) vs

unfoldable pub emails_of : List PsrView → List String
emails_of ranked = emails_from [] ranked

-- The distinct ones.
unfoldable pub distinct : List String → List String
distinct [] = []
distinct (x ∷ xs) = let rest = distinct xs in if contains x rest then rest else x ∷ rest

unfoldable pub independent_sources : List PsrView → List String
unfolding distinct
independent_sources views =
    select (λ s. not (contains s dependent_sources)) (distinct (map (λ v. v.source) views))

unfoldable pub has_verified_identifier : List PsrView → Bool
has_verified_identifier views =
    any (λ v. is_some v.orcid || contains v.source curated_sources) views

-- `_conflicts`: two or more values of a field.
conflict_on : String → String → List String → List FieldConflict
conflict_on person field values =
    if ltb 1 (length values)
    then record { person_id = person; field = field; values = values } ∷ []
    else []

unfoldable pub conflicts_of : String → List PsrView → List FieldConflict
unfolding conflict_on distinct
conflicts_of person ranked =
    conflict_on person "affiliation" (sorted (distinct (present (λ v. v.org_norm) ranked)))
    ++ conflict_on person "country_code" (sorted (distinct (present (λ v. v.country_code) ranked)))

-- `hacknation_cv_urls`, and the keys of the bronze rows of GitHub users with their avatars.
module _ (numbers : Numbers) where
  note_cv : Option String → Option String → Dict String → Dict String
  note_cv (some user) (some url) urls = setdefault user url urls
  note_cv (some user) none urls = urls
  note_cv none url urls = urls

  note_cvs : List Row → Dict String → Dict String
  unfolding note_cv
  note_cvs [] urls = urls
  note_cvs (entry ∷ rest) urls = note_cvs rest (
      note_cv (hacknation_user_id numbers.unicode numbers.of_int numbers.show_int entry)
        (get_str entry "cvUrl") urls)

  cv_urls_from : List Row → Dict String → Dict String
  unfolding note_cvs
  cv_urls_from [] urls = urls
  cv_urls_from (row ∷ rows) urls =
      cv_urls_from rows (note_cvs (hacknation_member_entries (get_map row "payload")) urls)

  unfoldable pub hacknation_cv_urls : List Row → Dict String
  unfolding cv_urls_from
  hacknation_cv_urls rows = cv_urls_from rows []
