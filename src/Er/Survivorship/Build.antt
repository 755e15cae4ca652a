-- ===== src/Er/Survivorship/Build.antt =====
-- er/survivorship.py: `build_person`, `build_persons` and `backfill_person_id`.
pub mod Persons
use hacknation_hackathon.Base.{
  ℕ, ◌-◌, String, Bool, true, false, not, ◌&&◌, Option, none, some, List, [], ◌∷◌, ◌++◌, map, ◌==◌,
  eqb, ltb, leb, any, length, head?, or_else, Result, ok, err, ◌>>=◌, or_raise, if◌then◌else◌,
}
use hacknation_hackathon.Base.Dict.{Dict, get, insert, setdefault, keys}
use hacknation_hackathon.Base.Float.{Float, float_lt}
use hacknation_hackathon.Base.Sort.{sorted}
use hacknation_hackathon.Base.Text.{join, or_text}
use hacknation_hackathon.Json.{
  nullable, Json, null, str, float, datetime, Row, get_str, get_map, json_list,
}
use hacknation_hackathon.Tools.Norm.{rstrip, words}
use hacknation_hackathon.Er.Adjudicate.{Services, LlmResponse}
use hacknation_hackathon.Er.Crosslinks.{hacknation_source}
use hacknation_hackathon.Er.Models.{PsrView, psr_view}
use hacknation_hackathon.Er.Survivorship.{
  FieldConflict, Numbers, SurvivorshipError, client_failed, bad_timestamp, ranked_views, first_of,
  text_length, present, most_recent_affiliation, emails_of, independent_sources,
  has_verified_identifier, conflicts_of, hacknation_cv_urls,
}

-- _BASE_SCORE (0.5), _PER_SOURCE_BONUS (0.2), _VERIFIED_BONUS (0.1) and _SCORE_CAP (0.9)
abbrev base_score : Float
base_score = record { bits = 0x3FE0000000000000 }

abbrev per_source_bonus : Float
per_source_bonus = record { bits = 0x3FC999999999999A }

abbrev verified_bonus : Float
verified_bonus = record { bits = 0x3FB999999999999A }

abbrev score_cap : Float
score_cap = record { bits = 0x3FECCCCCCCCCCCCD }

module _ (numbers : Numbers) where
  abbrev is_initial : String → Bool
  is_initial token = leb (text_length (rstrip 46 token)) 1

  -- 1 if no word of the name is an initial
  unfoldable pub completeness : String → ℕ
  unfolding words
  completeness name = if any is_initial (words numbers.unicode name) then 0 else 1

  -- The better of two names; the first one if neither is.
  better_name : String → String → String
  unfolding completeness
  better_name best name =
      if ltb (completeness best) (completeness name)
      then name
      else if eqb (completeness best) (completeness name)
          && ltb (text_length best) (text_length name)
      then name
      else best

  best_from : String → List String → String
  unfolding better_name
  best_from best [] = best
  best_from best (name ∷ names) = best_from (better_name best name) names

  best_of : List String → Option String
  unfolding best_from
  best_of [] = none
  best_of (name ∷ names) = some (best_from name names)

  unfoldable pub best_name : List PsrView → Option String
  unfolding best_of
  best_name ranked = best_of (present (λ v. v.full_name) ranked)

  unfoldable pub data_quality_score : List PsrView → Float
  data_quality_score views =
      let independent = length (independent_sources views) in
      let score = numbers.add base_score (numbers.mul per_source_bonus (independent - 1)) in
      let raised =
        if eqb independent 1 && has_verified_identifier views
        then numbers.add score verified_bonus
        else score in
      numbers.round2 (if float_lt score_cap raised then score_cap else raised)

  module _ {E S : Type 0} (services : Services E S) where
    avatars : List Row → Dict (Option String) → Dict (Option String)
    avatars [] d = d
    avatars (row ∷ rows) d =
        let ref =
          join
            ("bronze.github_users_raw:user_id=" ∷ services.show_value (get row "user_id") ∷ []) in
        let shown = elim (get_str row "user_id") as (λ _. String) [
          | some s ↦ join ("bronze.github_users_raw:user_id=" ∷ s ∷ [])
          | none ↦ ref
        ] in
        avatars rows (insert shown (get_str (get_map row "payload") "avatar_url") d)

    bronze_avatar : Dict (Option String) → Option String → Option String
    bronze_avatar by_ref (some ref) = or_else (get by_ref ref) none
    bronze_avatar by_ref none = none

    avatar_from : Dict (Option String) → List PsrView → Option String
    unfolding bronze_avatar
    avatar_from by_ref [] = none
    avatar_from by_ref (v ∷ vs) =
        let rest = avatar_from by_ref vs in
        elim v.avatar_url [
          | some url ↦ some url
          | none ↦ elim (bronze_avatar by_ref v.bronze_ref) [ some url ↦ some url | none ↦ rest ]
        ]

    unfoldable pub avatar_url : List PsrView → List Row → Option String
    unfolding avatar_from avatars
    avatar_url ranked bronze_users = avatar_from (avatars bronze_users []) ranked

    unfoldable pub cv_url : List PsrView → Dict String → Option String
    cv_url [] cv_by_user = none
    cv_url (v ∷ vs) cv_by_user =
        let rest = cv_url vs cv_by_user in
        elim v.cv_url [
          | some url ↦ some url
          | none ↦
              if v.source == hacknation_source
              then (elim (get cv_by_user v.source_key) as (λ _. Option String) [
                | some url ↦ some url
                | none ↦ rest
              ])
              else rest
        ]

    facts : List PsrView → List String
    facts [] = []
    facts (v ∷ []) =
        join (v.source ∷ ": " ∷ or_else v.full_name "" ∷ " @ " ∷ or_text v.affiliation_raw "?" ∷ [])
        ∷ []
    facts (v ∷ w ∷ vs) =
        join (
          v.source
          ∷ ": "
          ∷ or_else v.full_name ""
          ∷ " @ "
          ∷ or_text v.affiliation_raw "?"
          ∷ "; "
          ∷ [])
        ∷ facts (w ∷ vs)

    unfoldable pub headline_prompt : String → List PsrView → String
    unfolding facts
    headline_prompt person ranked = join (
        "TASK:headline person="
        ∷ person
        ∷ "\n"
        ∷ "Write a one-line professional headline for this person from the facts.\n"
        ∷ "Facts: "
        ∷ facts ranked)

    -- `text or None`
    abbrev text_or_none : String → Option String
    text_or_none text = if text == "" then none else some text

    headline : String → List PsrView → S → Result (SurvivorshipError E) (Option String × S)
    unfolding headline_prompt
    headline person ranked s =
        let (answer, s') = services.complete (headline_prompt person ranked) s in
        elim answer [
          | ok response ↦ ok (text_or_none (numbers.unicode.strip response.text), s')
          | err e ↦ err (client_failed e)
        ]

    website : Option String → Json
    website (some w) = str (join ("https://" ∷ w ∷ []))
    website none = null

    -- The row of silver.person.
    person_row : String → List PsrView → List Row → Dict String → Option ℕ → ℕ → Option String → Row
    unfolding website best_name cv_url avatar_url data_quality_score
    person_row person ranked bronze_users cv_by_user created_at now line =
        let full_name = nullable (best_name ranked) in
        ("person_id", str person)
        ∷ ("full_name", full_name)
        ∷ ("display_name", full_name)
        ∷ ("primary_email", nullable (head? (emails_of ranked)))
        ∷ ("emails", json_list (map str (emails_of ranked)))
        ∷ ("github_login", nullable (first_of (λ v. v.github_login) ranked))
        ∷ ("orcid", nullable (first_of (λ v. v.orcid) ranked))
        ∷ ("website_url", website (first_of (λ v. v.website_url_norm) ranked))
        ∷ ("linkedin_url", nullable (first_of (λ v. v.linkedin_url) ranked))
        ∷ ("cv_url", nullable (cv_url ranked cv_by_user))
        ∷ ("twitter_handle", nullable (first_of (λ v. v.twitter_handle) ranked))
        ∷ ("affiliation", nullable (most_recent_affiliation ranked))
        ∷ ("location", nullable (first_of (λ v. v.location_raw) ranked))
        ∷ ("country_code", nullable (first_of (λ v. v.country_code) ranked))
        ∷ ("headline", nullable line)
        ∷ ("avatar_url", nullable (avatar_url ranked bronze_users))
        ∷ ("data_quality_score", float (data_quality_score ranked))
        ∷ ("status", str "active")
        ∷ ("merged_into_person_id", null)
        ∷ ("created_at", datetime (or_else created_at now))
        ∷ ("updated_at", datetime now)
        ∷ []

    unfoldable pub build_person :
        String
        → List PsrView
        → List Row
        → Dict String
        → Option ℕ
        → S
        → Result (SurvivorshipError E) ((Row × List FieldConflict) × S)
    unfolding headline person_row
    build_person person views bronze_users cv_by_user created_at s =
        let ranked = ranked_views views in
        let (now, s') = services.clock s in
        do
          line ← headline person ranked s'
          ok (
            (
              person_row person ranked bronze_users cv_by_user created_at now line.0,
              conflicts_of person ranked,
            ),
            line.1,
          )

    -- `views_by_person.setdefault(person, []).append(view)`
    add_view : Option String → PsrView → Dict (List PsrView) → Dict (List PsrView)
    add_view (some person) view d = insert person (or_else (get d person) [] ++ view ∷ []) d
    add_view none view d = d

    unfoldable pub views_by_person :
        List Row → Dict String → Dict (List PsrView) → Dict (List PsrView)
    unfolding add_view
    views_by_person [] active_links d = d
    views_by_person (row ∷ rows) active_links d =
        let view = psr_view numbers.isoformat row in
        views_by_person rows active_links (add_view (get active_links view.source_record_id) view d)

    created_one : Option String → Option String → Dict ℕ → Result (SurvivorshipError E) (Dict ℕ)
    created_one (some person) (some stamp) d = do
      time ← or_raise (numbers.fromisoformat stamp) (bad_timestamp stamp)
      ok (insert person time d)
    created_one (some person) none d = ok d
    created_one none stamp d = ok d

    created_times : List Row → Dict ℕ → Result (SurvivorshipError E) (Dict ℕ)
    unfolding created_one
    created_times [] d = ok d
    created_times (row ∷ rows) d =
        created_one (get_str row "person_id") (get_str row "created_at") d >>= created_times rows

    -- The loop over the person ids.
    unfoldable pub build_each :
        Dict (List PsrView)
        → List Row
        → Dict String
        → Dict ℕ
        → List String
        → S
        → Result (SurvivorshipError E) ((List Row × List FieldConflict) × S)
    unfolding build_person
    build_each by_person bronze_users cv_by_user created [] s = ok (([], []), s)
    build_each by_person bronze_users cv_by_user created (person ∷ rest) s = do
      built ←
          build_person person (or_else (get by_person person) []) bronze_users cv_by_user
            (get created person) s
      later ← build_each by_person bronze_users cv_by_user created rest built.1
      ok ((built.0.0 ∷ later.0.0, built.0.1 ++ later.0.1), later.1)

    unfoldable pub build_persons :
        List Row
        → Dict String
        → List Row
        → List Row
        → List Row
        → S
        → Result (SurvivorshipError E) ((List Row × List FieldConflict) × S)
    unfolding views_by_person created_times build_each hacknation_cv_urls
    build_persons psr_rows active_links bronze_users hacknation_projects existing_persons s =
        let by_person = views_by_person psr_rows active_links [] in
        let cv_by_user = hacknation_cv_urls numbers hacknation_projects in
        do
          created ← created_times existing_persons []
          build_each by_person bronze_users cv_by_user created (sorted (keys by_person)) s

-- `row.get("person_id") != person`
abbrev differs : Option Json → String → Bool
differs (some (str p)) person = not (p == person)
differs (some _) person = true
differs none person = true

abbrev pub with_person : Row → String → Row
with_person row person = insert "person_id" (str person) row

backfill_row : Row → Option String → List Row
backfill_row row (some person) =
    if differs (get row "person_id") person then with_person row person ∷ [] else []
backfill_row row none = []

-- The active person of the record of a row.
unfoldable pub person_of_row : Dict String → Row → Option String
person_of_row active_links row = elim (get_str row "source_record_id") [
  | some psr ↦ get active_links psr
  | none ↦ none
]

unfoldable pub backfill_person_id : List Row → Dict String → List Row
unfolding backfill_row person_of_row
backfill_person_id [] active_links = []
backfill_person_id (row ∷ rows) active_links =
    backfill_row row (person_of_row active_links row) ++ backfill_person_id rows active_links
