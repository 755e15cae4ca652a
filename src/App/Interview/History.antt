-- ===== src/App/Interview/History.antt =====
-- Sequences of calls of the interview engine of app/interview.py, from any that has no open interview.
use hacknation_hackathon.Base.{
  ℕ, suc, String, true, Option, none, some, List, [], ◌∷◌, Result, ok, err,
}
use hacknation_hackathon.Base.Text.{or_text}
use hacknation_hackathon.Json.{Row, get_str}
use hacknation_hackathon.App.World.{
  AppError, Environment, World, ActiveState, RescoreOutcome, ask_model, ◌>>=◌, pure,
}
use hacknation_hackathon.App.Outreach.{transition_outreach}
use hacknation_hackathon.App.Interview.{
  Claims, claims, state, outreach_row, open_with, screen, open_interview, message_with, message,
  respond, step_to,
}
use hacknation_hackathon.App.Interview.Completion.{
  violations, checked, extract, rescored, score_id_of, persist_interview, note_score, close,
  close_with, summary, rescore_and_close, extraction_prompt, store_interview, finish, complete_from,
  complete_with, complete, opting_out, opt_out_row, opt_out_found, opt_out,
}
use hacknation_hackathon.App.Interview.Consent.{
  Consents, AllConsent, Good, Keeps, Any, Keeps-seq, Keeps-if, Keeps-upsert, Keeps-transition,
  Keeps-ask_model, Keeps-state, Keeps-claims, Keeps-respond, AllConsent-remove,
}

-- A call of the engine, with its arguments.
pub data Call : Type 0 where
  opened : String → String → Call
  said : String → String → String → Call
  completed : String → String → Call
  opted_out : String → Call

module _ {S : Type 0} (env : Environment S) where
  -- The world after a call, whether it returned or raised.
  abbrev pub after : Call → World S → World S
  after (opened token session) w = (open_interview env token session w).1
  after (said token session text) w = (message env token session text w).1
  after (completed token session) w = (complete env token session w).1
  after (opted_out token) w = (opt_out env token w).1

  abbrev pub after_all : List Call → World S → World S
  after_all [] w = w
  after_all (c ∷ cs) w = after_all cs (after c w)

  Good-world :
      {A : Type 0} (Q : A → Type 0) (p : Result AppError A × World S)
      → Good env Q p
      → AllConsent env p.1.active
  Good-world Q (ok a, w) g = g.0
  Good-world Q (err e, w) g = g

  Keeps-violations : (r : Row) (es : List String) → Keeps env Any (violations env r es)
  unfolding violations
  Keeps-violations r [] w h = (h, tt)
  Keeps-violations r (e ∷ es) w h = h

  Keeps-checked : (o : Option Row) → Keeps env Any (checked env o)
  unfolding checked
  Keeps-checked none w h = h
  Keeps-checked (some r) w h = Keeps-violations r (env.payload_errors r) w h

  Keeps-note_score : (row : Row) (scores : List Row) → Keeps env Any (note_score env row scores)
  unfolding note_score
  Keeps-note_score row [] w h = (h, tt)
  Keeps-note_score row (s ∷ ss) w h =
      Keeps-seq env Any Any (persist_interview env _) (λ _. pure (score_id_of s))
        (Keeps-upsert env _ _) (λ a q u g. (g, tt)) w h

  Keeps-close_with :
      (c : Claims) (row : Row) (id : String) (o : RescoreOutcome)
      → Keeps env Any (close_with env c row id o)
  unfolding close_with summary
  Keeps-close_with c row id o =
      Keeps-seq env Any Any (note_score env row o.score_rows) (summary env c id o)
        (Keeps-note_score row o.score_rows)
        (λ a q u g. (AllConsent-remove env c.outreach_id u.active g, tt))

  Keeps-rescored : (row : Row) → Keeps env Any (rescored env row)
  Keeps-rescored row w h = go (env.rescore row w.store)
    where
      go :
          (p : Result AppError RescoreOutcome × S)
          → Good env Any (let (r, s) = p in (r, record w { store = s }))
      go (ok o, s) = (h, tt)
      go (err e, s) = h

  Keeps-store_interview :
      (c : Claims) (row interview : Row) (id : String) (now : ℕ)
      → Keeps env Any (store_interview env c row interview id now)
  unfolding store_interview rescore_and_close
  Keeps-store_interview c row interview id now =
      let flip = transition_outreach env row (step_to env "interviewed" c now none) in
      Keeps-seq env Any Any (persist_interview env interview)
        (λ _. flip >>= λ _. rescore_and_close env c interview id) (Keeps-upsert env _ _)
        (λ a q.
          Keeps-seq env Any Any flip (λ _. rescore_and_close env c interview id)
            (Keeps-transition env row _)
            (λ a' q'.
              Keeps-seq env Any Any (rescored env interview) (close_with env c interview id)
                (Keeps-rescored interview) (λ o q''. Keeps-close_with c interview id o)))

  Keeps-complete_from :
      (c : Claims) (row : Row) (st : ActiveState) → Keeps env Any (complete_from env c row st)
  unfolding complete_from extract finish
  Keeps-complete_from c row st =
      Keeps-if env Any st.consent_confirmed (extract env c st >>= finish env c st row) _
        (λ e.
          Keeps-seq env Any Any (extract env c st) (finish env c st row)
            (λ w h.
              Keeps-seq env Any Any (ask_model env (extraction_prompt env c st) true)
                (λ response. checked env response.parsed) (Keeps-ask_model env _ true)
                (λ response q. Keeps-checked response.parsed) w h)
            (λ extracted q w h.
              Keeps-store_interview c row _ _ _ (record w { asked = suc (suc w.asked) }) h))
        (λ w h. h)

  Keeps-opt_out_row : (row : Row) → Keeps env Any (opt_out_row env row)
  unfolding opt_out_row
  Keeps-opt_out_row row w h =
      Keeps-seq env Any Any (transition_outreach env row (opting_out env row (env.clock w.asked)))
        (λ _. close env (or_text (get_str row "outreach_id") "") >>= λ _. pure true)
        (Keeps-transition env row _)
        (λ a q u g. (AllConsent-remove env (or_text (get_str row "outreach_id") "") u.active g, tt))
        (record w { asked = suc w.asked }) h

  Keeps-opt_out_found : (o : Option Row) → Keeps env Any (opt_out_found env o)
  unfolding opt_out_found
  Keeps-opt_out_found none w h = (h, tt)
  Keeps-opt_out_found (some row) w h = Keeps-opt_out_row row w h

  -- Every call keeps it, also a call that raises half way.
  pub after-AllConsent :
      (c : Call) (w : World S) → AllConsent env w.active → AllConsent env (after c w).active
  unfolding open_interview open_with message message_with complete complete_with opt_out screen
  after-AllConsent (opened token session) w h =
      Good-world Any (open_interview env token session w) (
        Keeps-seq env Any Any (claims env token) (open_with env session) (Keeps-claims env token)
          (λ (c, row) q.
            Keeps-seq env (Consents env) Any (state env c.outreach_id session) (screen env c row)
              (Keeps-state env c.outreach_id session) (λ st hs u g. (g, tt)))
          w h)
  after-AllConsent (said token session text) w h =
      Good-world Any (message env token session text w) (
        Keeps-seq env Any Any (claims env token) (message_with env session text)
          (Keeps-claims env token)
          (λ (c, row) q.
            Keeps-seq env (Consents env) Any (state env c.outreach_id session)
              (respond env c row text) (Keeps-state env c.outreach_id session)
              (λ st hs. Keeps-respond env c row text st hs))
          w h)
  after-AllConsent (completed token session) w h = Good-world Any (complete env token session w) (
      Keeps-seq env Any Any (claims env token) (complete_with env session) (Keeps-claims env token)
        (λ (c, row) q.
          Keeps-seq env (Consents env) Any (state env c.outreach_id session)
            (complete_from env c row) (Keeps-state env c.outreach_id session)
            (λ st hs. Keeps-complete_from c row st))
        w h)
  after-AllConsent (opted_out token) w h =
      Good-world Any (opt_out env token w)
        (Keeps-opt_out_found (outreach_row env w.store token) w h)

  pub after_all-AllConsent :
      (cs : List Call) (w : World S)
      → AllConsent env w.active
      → AllConsent env (after_all cs w).active
  after_all-AllConsent [] w h = h
  after_all-AllConsent (c ∷ cs) w h = after_all-AllConsent cs (after c w) (after-AllConsent c w h)
