-- ===== src/App/Interview/Completion.antt =====
-- app/interview.py: `_extract`, `complete`, `_persist_interview` and `opt_out`.
use hacknation_hackathon.Base.{
  ℕ, String, Bool, true, false, Option, none, some, List, [], ◌∷◌, or_else, if◌then◌else◌, ok,
}
use hacknation_hackathon.Base.Dict.{insert, remove}
use hacknation_hackathon.Base.Text.{join, or_text}
use hacknation_hackathon.Json.{
  Json, str, bool, null, Row, json_list, json_dict, as_mapping, get_str,
}
use hacknation_hackathon.App.World.{
  consent_required, extraction_invalid, Environment, Action, ActiveState, RescoreOutcome, ◌>>=◌,
  ◌>>◌, pure, raise, ask, ask_model, look, upsert,
}
use hacknation_hackathon.App.Outreach.{OutreachTransition, opt_str, transition_outreach}
use hacknation_hackathon.App.Interview.{Claims, claims, state, outreach_row, step_to}

-- An f-string prints a missing text as None.
abbrev shown : Row → String → String
shown item key = or_else (get_str item key) "None"

-- The entries that are mappings with something in them, one line each.
unfoldable pub transcript_text : List Json → List String
transcript_text [] = []
transcript_text (e ∷ es) = elim (as_mapping e) [
  | [] ↦ transcript_text es
  | f ∷ fs ↦ join (shown (f ∷ fs) "role" ∷ ": " ∷ shown (f ∷ fs) "text" ∷ []) ∷ transcript_text es
]

-- `"\n".join(lines)`
abbrev join_lines : List String → String
join_lines [] = ""
join_lines (s ∷ []) = s
join_lines (s ∷ t ∷ rest) = join (s ∷ "\n" ∷ join_lines (t ∷ rest) ∷ [])

-- The id of the first score row.
abbrev pub score_id_of : Row → Json
score_id_of row = opt_str (get_str row "score_id")

module _ {S : Type 0} (env : Environment S) where
  unfoldable pub extraction_prompt : Claims → ActiveState → String
  unfolding transcript_text
  extraction_prompt c st = join (
      "TASK:interview_extract venture="
      ∷ c.venture_id
      ∷ "\nExtract the structured interview payload (education, career, team_commitment, traction_claims, funding_status) from this transcript as JSON:\n"
      ∷ join_lines (transcript_text st.transcript)
      ∷ [])

  unfoldable pub violations : Row → List String → Action S Row
  violations extracted [] = pure extracted
  violations extracted (e ∷ es) = raise (extraction_invalid (e ∷ es))

  unfoldable pub checked : Option Row → Action S Row
  unfolding violations
  checked none = raise (extraction_invalid [])
  checked (some extracted) = violations extracted (env.payload_errors extracted)

  unfoldable pub extract : Claims → ActiveState → Action S Row
  unfolding extraction_prompt checked
  extract c st = do response ← ask_model env (extraction_prompt c st) true; checked response.parsed

  abbrev pub persist_interview : Row → Action S (Unit {0})
  persist_interview row = upsert env "gold.interview" (row ∷ [])

  unfoldable pub interview_row : Claims → ActiveState → Row → String → ℕ → Row
  interview_row c st extracted interview_id now =
      ("interview_id", str interview_id)
      ∷ ("outreach_id", str c.outreach_id)
      ∷ ("venture_id", str c.venture_id)
      ∷ ("person_id", str c.person_id)
      ∷ ("consent_confirmed", bool true)
      ∷ ("started_at", str (env.isoformat (or_else st.started_at now)))
      ∷ ("completed_at", str (env.isoformat now))
      ∷ ("transcript", json_list st.transcript)
      ∷ ("extracted", json_dict extracted)
      ∷ ("model_version", str env.model_version)
      ∷ ("rescore_score_id", null)
      ∷ ("updated_at", str (env.isoformat now))
      ∷ []

  -- `self._rescore(row)`, which reads and writes the same store.
  abbrev pub rescored : Row → Action S RescoreOutcome
  rescored row w = let (r, s) = env.rescore row w.store in (r, record w { store = s })

  abbrev pub close : String → Action S (Unit {0})
  close id w = (ok tt, record w { active = remove id w.active })

  -- The row keeps the id of the first new score.
  unfoldable pub note_score : Row → List Row → Action S Json
  note_score row [] = pure null
  note_score row (first ∷ rest) = do
    persist_interview (insert "rescore_score_id" (score_id_of first) row)
    pure (score_id_of first)

  unfoldable pub summary : Claims → String → RescoreOutcome → Json → Action S Row
  summary c interview_id outcome score_id = do
    close c.outreach_id
    pure (
        ("interview_id", str interview_id)
        ∷ ("rescore_status", str outcome.status)
        ∷ ("rescore_score_id", score_id)
        ∷ [])

  -- What follows on the rescoring.
  unfoldable pub close_with : Claims → Row → String → RescoreOutcome → Action S Row
  unfolding note_score summary
  close_with c interview interview_id outcome =
      note_score interview outcome.score_rows >>= summary c interview_id outcome

  unfoldable pub rescore_and_close : Claims → Row → String → Action S Row
  unfolding close_with
  rescore_and_close c interview interview_id =
      rescored interview >>= close_with c interview interview_id

  -- What follows on the reading of the clock and of the id.
  unfoldable pub store_interview : Claims → Row → Row → String → ℕ → Action S Row
  unfolding rescore_and_close
  store_interview c row interview interview_id now = do
    persist_interview interview
    transition_outreach env row (step_to env "interviewed" c now none)
    rescore_and_close c interview interview_id

  unfoldable pub finish : Claims → ActiveState → Row → Row → Action S Row
  unfolding interview_row store_interview
  finish c st row extracted = do
    now ← ask env.clock
    interview_id ← ask env.new_id
    store_interview c row (interview_row c st extracted interview_id now) interview_id now

  -- The gate.
  unfoldable pub complete_from : Claims → Row → ActiveState → Action S Row
  unfolding extract finish
  complete_from c row st =
      if st.consent_confirmed then extract c st >>= finish c st row else raise consent_required

  -- With the claims and the row of the token.
  unfoldable pub complete_with : String → Claims × Row → Action S Row
  unfolding state complete_from
  complete_with session (c, row) = state env c.outreach_id session >>= complete_from c row

  unfoldable pub complete : String → String → Action S Row
  unfolding claims complete_with
  complete token session = claims env token >>= complete_with session

  abbrev pub opting_out : Row → ℕ → OutreachTransition
  opting_out row now = record {
    status = "opted_out";
    actor = or_text (get_str row "person_id") "founder";
    now = now;
    consent_at = none;
  }

  unfoldable pub opt_out_row : Row → Action S Bool
  opt_out_row row = do
    now ← ask env.clock
    transition_outreach env row (opting_out row now)
    close (or_text (get_str row "outreach_id") "")
    pure true

  unfoldable pub opt_out_found : Option Row → Action S Bool
  unfolding opt_out_row
  opt_out_found none = pure false
  opt_out_found (some row) = opt_out_row row

  unfoldable pub opt_out : String → Action S Bool
  unfolding outreach_row opt_out_found
  opt_out token = look (λ store. outreach_row env store token) >>= opt_out_found
