-- ===== src/App/Outreach.antt =====
-- app/outreach.py: the outreach state machine, the suppression check and the sending of one email.
pub mod Suppression
pub mod Sending
pub mod Transition
use hacknation_hackathon.Base.{
  ℕ, ◌+◌, ◌*◌, String, Bool, true, false, not, ◌&&◌, ◌||◌, Option, none, some, List, [], ◌∷◌, ◌++◌,
  map, ◌==◌, any, select, find, contains, or_else, Result, ok, err, if◌then◌else◌,
}
use hacknation_hackathon.Base.Dict.{Dict, get, insert}
use hacknation_hackathon.Base.Float.{Float, float_lt}
use hacknation_hackathon.Base.Int.{ℤ}
use hacknation_hackathon.Base.Sort.{sort_by}
use hacknation_hackathon.Base.Text.{join}
use hacknation_hackathon.Json.{
  Json, null, str, datetime, Row, json_list, json_dict, as_list, as_mapping, get_str, get_bool,
  get_float, read,
}
use hacknation_hackathon.App.World.{
  AppError, unknown_venture, missing_contact, suppressed_person, bad_status, OutreachMail,
  Environment, World, Action, ◌>>=◌, ◌>>◌, pure, raise, lift, ask, fetch, upsert,
}

abbrev pub fund_name : String
fund_name = "Venture Hunt"

abbrev pub sender_email : String
sender_email = "partners@venturehunt.example"

abbrev pub outreach_table : String
outreach_table = "gold.outreach"

-- TOKEN_TTL_DAYS, 14 days, in microseconds
abbrev pub token_ttl : ℕ
token_ttl = 14 * 86_400_000_000

abbrev pub outreach_statuses : List String
outreach_statuses =
    "draft" ∷ "approved" ∷ "sent" ∷ "bounced" ∷ "replied" ∷ "consented" ∷ "declined"
    ∷ "interview_scheduled" ∷ "interview_started" ∷ "interviewed" ∷ "closed" ∷ "opted_out"
    ∷ "expired" ∷ []

pub record OutreachRequest : Type 0 where
  pub venture_id : String
  pub thesis_id : Option String
  pub base_url : String
  pub actor : String

pub record OutreachTransition : Type 0 where
  pub status : String
  pub actor : String
  pub now : ℕ
  pub consent_at : Option ℕ

pub record OutreachResult : Type 0 where
  pub outreach_id : String
  pub token : String
  pub interview_url : String
  pub to_email : String
  pub status : String

pub record EmailContext : Type 0 where
  pub to_email : String
  pub person_name : String
  pub venture_name : String
  pub source_note : String
  pub interview_url : String
  pub opt_out_url : String

-- `row.get(key) == text`
abbrev pub field_is : Row → String → String → Bool
field_is row key text = elim (get_str row key) [ some s ↦ s == text | none ↦ false ]

-- A text or None as a value.
abbrev pub opt_str : Option String → Json
opt_str none = null
opt_str (some s) = str s

module _ {S : Type 0} (env : Environment S) where
  abbrev pub history_entry : String → String → ℕ → Json
  history_entry state actor now =
      json_dict (("state", str state) ∷ ("ts", str (env.isoformat now)) ∷ ("actor", str actor) ∷ [])

  unfoldable pub append_history : Json → String → String → ℕ → List Json
  append_history history state actor now = as_list history ++ history_entry state actor now ∷ []

  set_consent : Option ℕ → Row → Row
  set_consent none row = row
  set_consent (some at) row = insert "consent_at" (str (env.isoformat at)) row

  -- The row that `transition_outreach` stores and returns.
  unfoldable pub transitioned : Row → OutreachTransition → Row
  unfolding set_consent append_history
  transitioned row step =
      let stamp = str (env.isoformat step.now) in
      insert "history"
        (json_list
          (append_history (read (λ j. j) (get row "history")) step.status step.actor step.now))
        (set_consent step.consent_at (
          insert "updated_at" stamp
            (insert "last_event_at" stamp (insert "status" (str step.status) row))))

  unfoldable pub transition_outreach : Row → OutreachTransition → Action S Row
  unfolding transitioned
  transition_outreach row step =
      if contains step.status outreach_statuses
      then (do upsert env outreach_table (transitioned row step ∷ []); pure (transitioned row step))
      else raise (bad_status step.status)

  abbrev pub Pair : Type 0
  Pair = String × String

  abbrev pub pair_eq : Pair → Pair → Bool
  pair_eq (a, b) (c, d) = a == c && b == d

  pair_of : Option String → Option String → List Pair
  pair_of (some source) (some key) = (source, key) ∷ []
  pair_of (some source) none = []
  pair_of none key = []

  suppressed_source_keys : List Row → List Pair
  unfolding pair_of
  suppressed_source_keys [] = []
  suppressed_source_keys (row ∷ rows) =
      pair_of (get_str row "source") (get_str row "source_key_hash") ++ suppressed_source_keys rows

  -- The records that active links give to the person: the ids, with None for a mistyped one.
  person_records : String → List Row → List (Option String)
  person_records person_id [] = []
  person_records person_id (row ∷ rows) =
      let rest = person_records person_id rows in
      if field_is row "person_id" person_id && field_is row "status" "active"
      then get_str row "source_record_id" ∷ rest
      else rest

  -- `row.get("source_record_id") in record_ids`
  in_records : Option Json → List (Option String) → Bool
  in_records v [] = false
  in_records v (some id ∷ ids) =
      read (λ j. elim j [ str s ↦ s == id | _ ↦ false ]) v || in_records v ids
  in_records v (none ∷ ids) = read (λ j. elim j [ null ↦ true | _ ↦ false ]) v || in_records v ids

  hashed : Option String → Option String
  hashed none = none
  hashed (some key) = some (env.sha256 key)

  source_pairs : List (Option String) → List Row → List Pair
  unfolding in_records hashed pair_of
  source_pairs ids [] = []
  source_pairs ids (row ∷ rows) =
      let rest = source_pairs ids rows in
      if in_records (get row "source_record_id") ids
      then pair_of (get_str row "source") (hashed (get_str row "source_key")) ++ rest
      else rest

  shares_pair : List Pair → List Pair → Bool
  shares_pair xs ys = any (λ x. any (pair_eq x) ys) xs

  unfoldable pub is_suppressed : S → String → Bool
  unfolding suppressed_source_keys person_records source_pairs shares_pair
  is_suppressed store person_id =
      any (λ row. field_is row "person_id" person_id && field_is row "status" "opted_out")
        (env.rows store outreach_table)
      || shares_pair (suppressed_source_keys (env.rows store "ops.erasure_suppression")) (
          source_pairs (person_records person_id (env.rows store "silver.person_source_link"))
            (env.rows store "silver.person_source_record"))

unfoldable pub render_email : EmailContext → OutreachMail
render_email c = record {
  to_email = c.to_email;
  subject = join (fund_name ∷ ": your work on " ∷ c.venture_name ∷ []);
  body = join (
      "Hi " ∷ c.person_name ∷ ",\n\nI'm writing from " ∷ fund_name
      ∷ ", an early-stage venture fund. We came across " ∷ c.source_note
      ∷ ", and we'd love to learn more about " ∷ c.venture_name
      ∷ " directly from you.\n\nIf you're open to it, this link starts a short, consent-based AI-assisted interview (about 10 minutes):\n"
      ∷ c.interview_url
      ∷ "\n\nWhy you're receiving this: we source from public data only (GitHub, arXiv/OpenAlex, the Zefix commercial register). Nothing you share is used without your explicit consent on the first screen, and you can request erasure at any time.\n\nPrefer not to hear from us again? One click opts you out:\n"
      ∷ c.opt_out_url ∷ "\n\nBest regards,\n" ∷ fund_name ∷ "\n" ∷ sender_email ∷ []);
}
