-- ===== src/App/Interview.antt =====
-- app/interview.py: the token, the session and the chat of the founder interview. `self._active` is
-- the `active` of the world, keyed by outreach id, and a change of the state object is an assignment
-- there.
pub mod Completion
pub mod Consent
pub mod History
pub mod Token
pub mod Gate
pub mod OptOut
use hacknation_hackathon.Base.{
  ℕ, suc, String, Bool, true, false, Option, none, some, List, [], ◌∷◌, ◌++◌, ◌==◌, length,
  get_elem?, ltb, contains, any, Result, ok, err, find, or_else, or_raise, if◌then◌else◌,
}
use hacknation_hackathon.Base.Dict.{Dict, get, insert}
use hacknation_hackathon.Base.Int.{pos}
use hacknation_hackathon.Base.Text.{join, or_text, starts_with}
use hacknation_hackathon.Json.{
  Json, str, bool, int, null, Row, json_list, json_dict, get_str, get_map, get_list,
}
use hacknation_hackathon.App.World.{
  AppError, bad_timestamp, ask_model, invalid_token, expired_token, consumed_token, session_bound,
  Environment, World, Action, ActiveState, ◌>>=◌, ◌>>◌, pure, raise, lift, ask, look,
}
use hacknation_hackathon.App.Outreach.{
  OutreachTransition, outreach_table, field_is, opt_str, transition_outreach, fund_name,
}

abbrev pub consent_prompt : String
consent_prompt =
    "Before we begin: do you consent to this short interview and to your answers being stored and used to evaluate your venture? You can decline, skip any question, or request erasure later."

abbrev pub wrap_up_text : String
wrap_up_text = "That covers everything we hoped to ask. Press Complete to finish."

abbrev pub decline_ack : String
decline_ack =
    "Understood — nothing has been recorded beyond your answer, and we will not contact you again about this interview."

abbrev pub affirmative_prefixes : List String
affirmative_prefixes = "yes" ∷ "i consent" ∷ "i agree" ∷ "ok" ∷ "sure" ∷ []

abbrev pub open_statuses : List String
open_statuses = "sent" ∷ "replied" ∷ "consented" ∷ "interview_scheduled" ∷ "interview_started" ∷ []

-- `TokenClaims`
pub record Claims : Type 0 where
  pub outreach_id : String
  pub venture_id : String
  pub person_id : String
  pub thesis_id : Option String
  pub status : String
  pub expires_at : Option ℕ
  pub questions : List String

abbrev new_state : String → ActiveState
new_state session = record {
  session = session;
  transcript = [];
  question_index = 0;
  consent_confirmed = false;
  started_at = none;
}

-- The items that are texts.
unfoldable pub texts : List Json → List String
texts [] = []
texts (str s ∷ xs) = s ∷ texts xs
texts (_ ∷ xs) = texts xs

abbrev pub status_of : Row → String
status_of row = or_text (get_str row "status") "draft"

-- The claims that an outreach row makes.
unfoldable pub claims_of : Row → Option ℕ → Claims
unfolding texts
claims_of row expires_at = record {
  outreach_id = or_text (get_str row "outreach_id") "";
  venture_id = or_text (get_str row "venture_id") "";
  person_id = or_text (get_str row "person_id") "";
  thesis_id = get_str row "thesis_id";
  status = status_of row;
  expires_at = expires_at;
  questions = texts (get_list (get_map row "question_plan") "questions");
}

-- The reply after the answer to the question before `index`.
unfoldable pub next_prompt : List String → ℕ → String × Bool
next_prompt questions index = elim (get_elem? questions index) [
  | some q ↦ (q, false)
  | none ↦ (wrap_up_text, true)
]

module _ {S : Type 0} (env : Environment S) where
  abbrev pub entry : String → String → ℕ → Json
  entry role text now =
      json_dict (("role", str role) ∷ ("text", str text) ∷ ("at", str (env.isoformat now)) ∷ [])

  unfoldable pub is_affirmative : String → Bool
  is_affirmative text = any (starts_with (env.lower (env.strip text))) affirmative_prefixes

  unfoldable pub outreach_row : S → String → Option Row
  outreach_row store token =
      find (λ row. field_is row "token_hash" (env.sha256 token)) (env.rows store outreach_table)

  -- The clock is read only for a row that expires.
  unfoldable pub check_expiry : Option ℕ → Action S (Unit {0})
  check_expiry none = pure tt
  check_expiry (some at) =
      ask env.clock >>= λ now. if ltb at now then raise expired_token else pure tt

  -- `as_utc`, whose ValueError is for a text that is no timestamp
  unfoldable pub as_utc : Option String → Result AppError (Option ℕ)
  as_utc none = ok none
  as_utc (some text) = elim (env.as_utc text) [
    | some at ↦ ok (some at)
    | none ↦ err (bad_timestamp text)
  ]

  unfoldable pub claims_at : Row → Option ℕ → Action S (Claims × Row)
  unfolding check_expiry claims_of
  claims_at row expires_at = do check_expiry expires_at; pure (claims_of row expires_at, row)

  unfoldable pub claims_from : Row → Action S (Claims × Row)
  unfolding as_utc claims_at
  claims_from row =
      if contains (status_of row) open_statuses
      then lift (as_utc (get_str row "token_expires_at")) >>= claims_at row
      else raise (consumed_token (status_of row))

  unfoldable pub found : Option Row → Action S (Claims × Row)
  unfolding claims_from
  found none = raise invalid_token
  found (some row) = claims_from row

  unfoldable pub claims : String → Action S (Claims × Row)
  unfolding outreach_row found
  claims token = look (λ store. outreach_row store token) >>= found

  abbrev pub put_state : String → ActiveState → Action S (Unit {0})
  put_state id st w = (ok tt, record w { active = insert id st w.active })

  unfoldable pub bound : String → ActiveState → Action S ActiveState
  bound session st = if st.session == session then pure st else raise session_bound

  unfoldable pub state : String → String → Action S ActiveState
  unfolding bound
  state id session w = elim (get w.active id) [
    | some st ↦ bound session st w
    | none ↦ (ok (new_state session), record w { active = insert id (new_state session) w.active })
  ]

  venture_name : S → String → String
  venture_name store venture_id =
      elim (find (λ row. field_is row "venture_id" venture_id) (env.rows store "gold.venture")) [
        | some row ↦ or_text (get_str row "name") venture_id
        | none ↦ venture_id
      ]

  unfoldable pub screen : Claims → Row → ActiveState → Action S Row
  unfolding venture_name
  screen c row st = do
    name ← look (λ store. venture_name store c.venture_id)
    pure (
        ("venture_name", str name)
        ∷ ("fund_name", str fund_name)
        ∷ ("why_contacted", opt_str (get_str row "body"))
        ∷ ("consent_prompt", str consent_prompt)
        ∷ ("consented", bool st.consent_confirmed)
        ∷ ("questions_total", int (pos (length c.questions)))
        ∷ ("transcript", json_list st.transcript)
        ∷ [])

  unfoldable pub open_with : String → Claims × Row → Action S Row
  unfolding state screen
  open_with session (c, row) = state c.outreach_id session >>= screen c row

  unfoldable pub open_interview : String → String → Action S Row
  unfolding claims open_with
  open_interview token session = claims token >>= open_with session

  abbrev pub step_to : String → Claims → ℕ → Option ℕ → OutreachTransition
  step_to status c now consent_at = record {
    status = status;
    actor = c.person_id;
    now = now;
    consent_at = consent_at;
  }

  abbrev pub reply_row : String → Bool → Bool → Row
  reply_row text declined done =
      ("assistant", str text) ∷ ("declined", bool declined) ∷ ("done", bool done) ∷ []

  unfoldable pub decline : Claims → Row → ℕ → Action S Row
  decline c row now = do
    transition_outreach env row (step_to "declined" c now none)
    pure (reply_row decline_ack true true)

  -- The first question, once both transitions are stored.
  unfoldable pub ask_first : Claims → ActiveState → ℕ → Action S Row
  ask_first c st now = do
    let reply =
        join ("Thanks for consenting. " ∷ or_else (get_elem? c.questions 0) wrap_up_text ∷ [])
    put_state c.outreach_id
        record st { transcript = st.transcript ++ entry "assistant" reply now ∷ [] }
    pure (reply_row reply false false)

  unfoldable pub accept : Claims → ActiveState → Row → ℕ → Action S Row
  unfolding ask_first
  accept c st row now = do
    updated ← transition_outreach env row (step_to "consented" c now (some now))
    transition_outreach env updated (step_to "interview_started" c now none)
    ask_first c st now

  -- The consent prompt and the answer, verbatim.
  abbrev pub heard : ActiveState → String → ℕ → ActiveState
  heard st text now = record st {
    transcript =
        st.transcript ++ entry "assistant" consent_prompt now ∷ entry "founder" text now ∷ [];
  }

  abbrev pub started : ActiveState → String → ℕ → ActiveState
  started st text now = record (heard st text now) {
    consent_confirmed = true;
    started_at = some now;
  }

  unfoldable pub record_consent : Claims → ActiveState → String → Row → Action S Row
  unfolding is_affirmative decline accept
  record_consent c st text row = do
    now ← ask env.clock
    (if is_affirmative text
        then put_state c.outreach_id (started st text now) >> accept c (started st text now) row now
        else put_state c.outreach_id (heard st text now) >> decline c row now)

  abbrev pub acknowledgement : Claims → String → String → String
  acknowledgement c question answer = join (
      "TASK:interview venture=" ∷ c.venture_id
      ∷ "\nYou are conducting a consent-based founder interview.\nQuestion asked: " ∷ question
      ∷ "\nFounder answered: " ∷ answer ∷ "\nAcknowledge the answer in one short sentence." ∷ [])

  acknowledge : Claims → String → String → Action S String
  acknowledge c question answer = do
    response ← ask_model env (acknowledgement c question answer) false
    pure (env.strip response.text)

  abbrev is_skip : String → Bool
  is_skip text = env.lower (env.strip text) == "skip"

  -- The next question, or the end, after the acknowledgement.
  unfoldable pub reply_to : Claims → ActiveState → String → Action S Row
  unfolding next_prompt
  reply_to c moved ack = do
    put_state c.outreach_id moved
    let (prompt, done) = next_prompt c.questions moved.question_index
    let reply = join (ack ∷ " " ∷ prompt ∷ [])
    later ← ask env.clock
    put_state c.outreach_id
        record moved { transcript = moved.transcript ++ entry "assistant" reply later ∷ [] }
    pure (reply_row reply false done)

  abbrev pub told : ActiveState → String → ℕ → ActiveState
  told st text now = record st { transcript = st.transcript ++ entry "founder" text now ∷ [] }

  unfoldable pub answer : Claims → ActiveState → String → Action S Row
  unfolding acknowledge reply_to
  answer c st text = do
    now ← ask env.clock
    put_state c.outreach_id (told st text now)
    ack ←
        if is_skip text
        then pure "No problem, we'll skip that."
        else acknowledge c (or_else (get_elem? c.questions st.question_index) wrap_up_text) text
    reply_to c (record (told st text now) { question_index = suc st.question_index }) ack

  -- Before the consent a message answers the prompt, and after it the question.
  unfoldable pub respond : Claims → Row → String → ActiveState → Action S Row
  unfolding record_consent answer
  respond c row text st =
      if st.consent_confirmed then answer c st text else record_consent c st text row

  unfoldable pub message_with : String → String → Claims × Row → Action S Row
  unfolding state respond
  message_with session text (c, row) = state c.outreach_id session >>= respond c row text

  unfoldable pub message : String → String → String → Action S Row
  unfolding claims message_with
  message token session text = claims token >>= message_with session text
