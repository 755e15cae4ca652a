-- ===== src/App/Outreach/Sending.antt =====
-- app/outreach.py: the founder that is written to, the questions of the interview, and
-- `send_outreach`.
use hacknation_hackathon.Base.{
  ℕ, ◌+◌, String, Bool, true, false, not, ◌&&◌, ◌||◌, Option, none, some, List, [], ◌∷◌, map, ◌==◌,
  select, find, or_else, if◌then◌else◌,
}
use hacknation_hackathon.Base.Dict.{get, insert}
use hacknation_hackathon.Base.Float.{Float, float_lt}
use hacknation_hackathon.Base.Sort.{sort_by}
use hacknation_hackathon.Base.Text.{join, or_text}
use hacknation_hackathon.Json.{
  Json, null, str, datetime, Row, json_list, json_dict, get_str, get_bool, get_float, read,
}
use hacknation_hackathon.App.World.{
  unknown_venture, missing_contact, suppressed_person, OutreachMail, Environment, Action, ◌>>=◌,
  ◌>>◌, pure, raise, ask, upsert, send, look,
}
use hacknation_hackathon.App.Outreach.{
  token_ttl, outreach_table, OutreachRequest, OutreachResult, field_is, opt_str, append_history,
  is_suppressed, render_email,
}

-- Two ids as dict keys: texts, or None for a field that is absent.
abbrev id_eq : Json → Json → Bool
id_eq (str a) (str b) = a == b
id_eq null null = true
id_eq _ _ = false

-- `{row.get("person_id"): row for row in rows}.get(id)`, as a mapping: the last row of the id.
unfoldable pub person_of : Option Json → List Row → Row → Row
person_of id [] found = found
person_of id (row ∷ rows) found =
    person_of id rows
      (if read (λ a. read (λ b. id_eq a b) id) (get row "person_id") then row else found)

-- The first member with an email address, which is written into the row.
unfoldable pub contactable : List Row → List Row → Option Row
contactable persons [] = none
contactable persons (member ∷ team) =
    elim (get_str (person_of (get member "person_id") persons []) "primary_email") [
      | some email ↦ some (insert "to_email" (str email) member)
      | none ↦ contactable persons team
    ]

unfoldable pub texts_of : String → List Row → List String
texts_of key [] = []
texts_of key (row ∷ rows) = elim (get_str row key) [
  | some t ↦ t ∷ texts_of key rows
  | none ↦ texts_of key rows
]

abbrev with_login : Option String → String → String
with_login none note = note
with_login (some login) note = join ("your GitHub profile @" ∷ login ∷ " and " ∷ note ∷ [])

abbrev with_website : Option String → String → String
with_website none note = note
with_website (some website) note = join (note ∷ " (" ∷ website ∷ ")" ∷ [])

unfoldable pub source_note : Row → Row → String
source_note founder venture = with_website (get_str venture "website_url") (
    with_login (get_str founder "github_login")
      (join ("your public work on " ∷ or_text (get_str venture "name") "your venture" ∷ [])))

module _ {S : Type 0} (env : Environment S) where
  abbrev number : Row → String → Float
  number row key = or_else (get_float env.of_int row key) (record { bits = 0 })

  abbrev is_founder : Row → Bool
  is_founder row = or_else (get_bool row "is_founder_guess") false

  -- Founders first, then the larger weight.
  unfoldable pub member_before : Row → Row → Bool
  member_before a b =
      if is_founder a
      then not (is_founder b) || float_lt (number b "weight") (number a "weight")
      else not (is_founder b) && float_lt (number b "weight") (number a "weight")

  unfoldable pub venture_row : S → String → Option Row
  venture_row store venture_id =
      find (λ row. field_is row "venture_id" venture_id) (env.rows store "gold.venture")

  unfoldable pub pick_founder : S → String → Option Row
  unfolding contactable member_before
  pick_founder store venture_id = contactable (env.rows store "silver.person") (
      sort_by member_before (
        select (λ row. field_is row "venture_id" venture_id)
          (env.rows store "gold.v_venture_team")))

  unfoldable pub question_plan : S → String → List String
  unfolding texts_of
  question_plan store venture_id = texts_of "question_text" (
      sort_by (λ a b. float_lt (number b "importance") (number a "importance"))
        (select (λ row. field_is row "venture_id" venture_id) (env.rows store "gold.venture_gaps")))

  abbrev pub interview_url_of : OutreachRequest → String → String
  interview_url_of request token = join (request.base_url ∷ "/#/interview/" ∷ token ∷ [])

  abbrev pub opt_out_url_of : OutreachRequest → String → String
  opt_out_url_of request token = join (request.base_url ∷ "/v1/optout/" ∷ token ∷ [])

  unfoldable pub mail_for : OutreachRequest → Row → Row → String → OutreachMail
  unfolding render_email source_note
  mail_for request venture founder token = render_email record {
    to_email = or_text (get_str founder "to_email") "";
    person_name = or_text (get_str founder "full_name") "there";
    venture_name = or_text (get_str venture "name") "your venture";
    source_note = source_note founder venture;
    interview_url = interview_url_of request token;
    opt_out_url = opt_out_url_of request token;
  }

  -- The row of `gold.outreach` that a sent mail leaves.
  unfoldable pub sent_row :
      OutreachRequest → Row → OutreachMail → ℕ → String → String → List String → Row
  unfolding append_history
  sent_row request founder mail now token outreach_id questions =
      ("outreach_id", str outreach_id)
      ∷ ("venture_id", str request.venture_id)
      ∷ ("thesis_id", opt_str request.thesis_id)
      ∷ ("person_id", str (or_text (get_str founder "person_id") ""))
      ∷ ("channel", str "email")
      ∷ ("to_email", str (or_text (get_str founder "to_email") ""))
      ∷ ("subject", str mail.subject)
      ∷ ("body", str mail.body)
      ∷ ("token_hash", str (env.sha256 token))
      ∷ ("token_expires_at", datetime (now + token_ttl))
      ∷ ("question_plan", json_dict (("questions", json_list (map str questions)) ∷ []))
      ∷ ("status", str "sent")
      ∷ ("consent_at", null)
      ∷ ("sent_at", datetime now)
      ∷ ("last_event_at", datetime now)
      ∷ (
        "history",
        json_list (
            append_history env (json_list (append_history env null "draft" request.actor now))
              "sent" request.actor now),
      )
      ∷ ("created_by", str request.actor)
      ∷ ("updated_at", datetime now)
      ∷ []

  abbrev pub result_for : OutreachRequest → Row → String → String → OutreachResult
  result_for request founder token outreach_id = record {
    outreach_id = outreach_id;
    token = token;
    interview_url = interview_url_of request token;
    to_email = or_text (get_str founder "to_email") "";
    status = "sent";
  }

  -- What follows on the mail.
  unfoldable pub store_sent :
      OutreachRequest → Row → OutreachMail → ℕ → String → Action S OutreachResult
  unfolding sent_row question_plan
  store_sent request founder mail now token = do
    outreach_id ← ask env.new_id
    questions ← look (λ store. question_plan store request.venture_id)
    upsert env outreach_table (sent_row request founder mail now token outreach_id questions ∷ [])
    pure (result_for request founder token outreach_id)

  unfoldable pub deliver_and_store :
      OutreachRequest → Row → OutreachMail → ℕ → String → Action S OutreachResult
  unfolding store_sent
  deliver_and_store request founder mail now token =
      send env mail >> store_sent request founder mail now token

  unfoldable pub write_to : OutreachRequest → Row → Row → Action S OutreachResult
  unfolding mail_for deliver_and_store
  write_to request venture founder = do
    now ← ask env.clock
    token ← ask env.new_token
    deliver_and_store request founder (mail_for request venture founder token) now token

  -- The gate, and the two lookups before it.
  unfoldable pub gated : OutreachRequest → Row → Row → Action S OutreachResult
  unfolding write_to is_suppressed
  gated request venture founder w =
      let person_id = or_text (get_str founder "person_id") "" in
      if is_suppressed env w.store person_id
      then raise (suppressed_person person_id) w
      else write_to request venture founder w

  unfoldable pub send_to : OutreachRequest → Option Row → Option Row → Action S OutreachResult
  unfolding gated
  send_to request none founder = raise (unknown_venture request.venture_id)
  send_to request (some venture) none = raise (missing_contact request.venture_id)
  send_to request (some venture) (some founder) = gated request venture founder

  unfoldable pub send_outreach : OutreachRequest → Action S OutreachResult
  unfolding venture_row pick_founder send_to
  send_outreach request w =
      send_to request (venture_row w.store request.venture_id)
        (pick_founder w.store request.venture_id) w
