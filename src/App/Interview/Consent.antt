-- ===== src/App/Interview/Consent.antt =====
-- The consent gate of app/interview.py: what every call keeps true of the open interviews.
use mathlib.Core.List.{append_assoc}
use hacknation_hackathon.Base.{
  ℕ, suc, String, Bool, true, false, ◌≡◌, refl, Option, none, some, List, [], ◌∷◌, ◌++◌, ◌==◌,
  Result, ok, err, contains, ltb, subst, ap, sym, ◌∙◌, if◌then◌else◌, get_elem?, or_else,
}
use hacknation_hackathon.Base.Dict.{Dict, get, insert, remove, get-insert, get-remove}
use hacknation_hackathon.Json.{Json, Row, get_str}
use hacknation_hackathon.App.World.{
  AppError, Environment, World, Action, ActiveState, ◌>>=◌, lift, ask_model, pure, raise, upsert,
  written, session_bound, expired_token,
}
use hacknation_hackathon.App.Outreach.{
  OutreachTransition, outreach_table, outreach_statuses, transition_outreach, transitioned,
}
use hacknation_hackathon.App.Interview.{
  Claims, consent_prompt, open_statuses, status_of, entry, is_affirmative, outreach_row,
  check_expiry, as_utc, claims_at, claims_of, claims_from, claims, put_state, new_state, bound,
  state, decline, accept, record_consent, answer, acknowledgement, acknowledge, step_to, is_skip,
  found, ask_first, reply_row, decline_ack, wrap_up_text, heard, started, told, reply_to, respond,
}

-- No condition on a result.
abbrev pub Any : {A : Type 0} → A → Type 0
Any a = Unit

module _ {S : Type 0} (env : Environment S) where
  -- An interview counts as consented only with the prompt and an affirmative answer in its transcript.
  abbrev pub Consents : ActiveState → Type 0
  Consents st =
      st.consent_confirmed ≡ true
      → (before after : List Json) × (now : ℕ) × (text : String) × (is_affirmative env text ≡ true)
        × (st.transcript
            ≡ before
              ++ entry env "assistant" consent_prompt now ∷ entry env "founder" text now ∷ after)

  abbrev pub AllConsent : Dict ActiveState → Type 0
  AllConsent active = (id : String) (st : ActiveState) → get active id ≡ some st → Consents st

  -- Also when the call raises.
  abbrev pub Good : {A : Type 0} → (A → Type 0) → Result AppError A × World S → Type 0
  Good Q (ok a, w) = AllConsent w.active × Q a
  Good Q (err e, w) = AllConsent w.active

  abbrev pub Keeps : {A : Type 0} → (A → Type 0) → Action S A → Type 0
  Keeps Q m = (w : World S) → AllConsent w.active → Good Q (m w)

  pub Keeps-seq :
      {A B : Type 0} (Q : A → Type 0) (R : B → Type 0) (m : Action S A) (k : A → Action S B)
      → Keeps Q m
      → ((a : A) → Q a → Keeps R (k a))
      → Keeps R (m >>= k)
  Keeps-seq {A = A} Q R m k hm hk w h = go (m w) (hm w h)
    where
      go :
          (p : Result AppError A × World S)
          → Good Q p
          → Good R (let (r, w') = p in elim r [ ok a ↦ k a w' | err e ↦ (err e, w') ])
      go (ok a, u) (g, q) = hk a q u g
      go (err e, u) g = g

  pub Keeps-if :
      {A : Type 0} (Q : A → Type 0) (b : Bool) (m k : Action S A)
      → (b ≡ true → Keeps Q m)
      → Keeps Q k
      → Keeps Q (if b then m else k)
  Keeps-if Q true m k hm hk = hm refl
  Keeps-if Q false m k hm hk = hk

  pub Keeps-upsert : (table : String) (rows : List Row) → Keeps Any (upsert env table rows)
  Keeps-upsert table rows w h = go (env.upsert table rows w.store)
    where
      go : (r : Result AppError S) → Good Any (written w r)
      go (ok s) = (h, tt)
      go (err e) = h

  pub Keeps-transition :
      (row : Row) (step : OutreachTransition) → Keeps Any (transition_outreach env row step)
  unfolding transition_outreach
  Keeps-transition row step =
      Keeps-if Any (contains step.status outreach_statuses) _ _
        (λ e.
          Keeps-seq Any Any (upsert env outreach_table (transitioned env row step ∷ []))
            (λ _. pure (transitioned env row step)) (Keeps-upsert outreach_table _)
            (λ a q w h. (h, tt)))
        (λ w h. h)

  pub AllConsent-insert :
      (id : String) (st : ActiveState) (active : Dict ActiveState)
      → Consents st
      → AllConsent active
      → AllConsent (insert id st active)
  AllConsent-insert id st active hs h j s e = pick (id == j) (sym (get-insert id j st active) ∙ e)
    where
      pick : (b : Bool) → (if b then some st else get active j) ≡ some s → Consents s
      pick true e' = let q : st ≡ s = cc in subst Consents q hs
      pick false e' = h j s e'

  pub AllConsent-remove :
      (id : String) (active : Dict ActiveState) → AllConsent active → AllConsent (remove id active)
  AllConsent-remove id active h j s e = pick (id == j) (sym (get-remove id j active) ∙ e)
    where
      pick : (b : Bool) → (if b then none else get active j) ≡ some s → Consents s
      pick true e' = cc
      pick false e' = h j s e'

  pub Keeps-state : (id session : String) → Keeps Consents (state env id session)
  unfolding state bound
  Keeps-state id session w h = go (get w.active id) refl
    where
      go :
          (o : Option ActiveState)
          → get w.active id ≡ o
          → Good Consents (elim o [
            | some st ↦ bound env session st w
            | none ↦ (
              ok (new_state session),
              record w { active = insert id (new_state session) w.active },
            )
          ])
      go none e = (AllConsent-insert id (new_state session) w.active (λ c. cc) h, λ c. cc)
      go (some st) e =
          Keeps-if Consents (st.session == session) (pure st) (raise session_bound)
            (λ e' w' h'. (h', λ c. h id st e c)) (λ w' h'. h') w h

  Keeps-check_expiry : (at : Option ℕ) → Keeps Any (check_expiry env at)
  unfolding check_expiry
  Keeps-check_expiry none w h = (h, tt)
  Keeps-check_expiry (some at) w h =
      Keeps-if Any (ltb at (env.clock w.asked)) (raise expired_token) (pure tt) (λ e w h. h)
        (λ w h. (h, tt)) (record w { asked = suc w.asked }) h

  Keeps-lift : {A : Type 0} (r : Result AppError A) → Keeps Any (lift r)
  Keeps-lift (ok a) w h = (h, tt)
  Keeps-lift (err e) w h = h

  -- Also a model that raises changes no interview.
  pub Keeps-ask_model :
      (prompt : String) (structured : Bool) → Keeps Any (ask_model env prompt structured)
  Keeps-ask_model prompt structured w h =
      Keeps-lift (env.complete w.asked prompt structured) (record w { asked = suc w.asked }) h

  Keeps-claims_from : (row : Row) → Keeps Any (claims_from env row)
  unfolding claims_from claims_at
  Keeps-claims_from row =
      Keeps-if Any (contains (status_of row) open_statuses) _ _
        (λ e.
          Keeps-seq Any Any (lift (as_utc env (get_str row "token_expires_at"))) (claims_at env row)
            (Keeps-lift (as_utc env (get_str row "token_expires_at")))
            (λ at q.
              Keeps-seq Any Any (check_expiry env at) (λ _. pure (claims_of row at, row))
                (Keeps-check_expiry at) (λ a q' w h. (h, tt))))
        (λ w h. h)

  Keeps-found : (row : Option Row) → Keeps Any (found env row)
  unfolding found
  Keeps-found none w h = h
  Keeps-found (some r) w h = Keeps-claims_from r w h

  pub Keeps-claims : (token : String) → Keeps Any (claims env token)
  unfolding claims
  Keeps-claims token w h = Keeps-found (outreach_row env w.store token) w h

  Keeps-decline : (c : Claims) (row : Row) (now : ℕ) → Keeps Any (decline env c row now)
  unfolding decline
  Keeps-decline c row now =
      Keeps-seq Any Any (transition_outreach env row (step_to env "declined" c now none))
        (λ _. pure (reply_row env decline_ack true true)) (Keeps-transition row _)
        (λ a q w h. (h, tt))

  Consents-append :
      (st : ActiveState) (more : List Json)
      → Consents st
      → Consents (record st { transcript = st.transcript ++ more })
  Consents-append st more hs e =
      let (before, after, now, text, agreed, split) = hs e in
      (
        before,
        after ++ more,
        now,
        text,
        agreed,
        ap (λ t. t ++ more) split ∙ append_assoc before _ more,
      )

  Keeps-accept :
      (c : Claims) (st : ActiveState) (row : Row) (now : ℕ)
      → Consents st
      → Keeps Any (accept env c st row now)
  unfolding accept ask_first
  Keeps-accept c st row now hs =
      let second = λ (updated : Row).
        transition_outreach env updated (step_to env "interview_started" c now none) in
      Keeps-seq Any Any (transition_outreach env row (step_to env "consented" c now (some now)))
        (λ updated. second updated >>= λ _. ask_first env c st now) (Keeps-transition row _)
        (λ updated q.
          Keeps-seq Any Any (second updated) (λ _. ask_first env c st now)
            (Keeps-transition updated _)
            (λ a q' w h.
              (AllConsent-insert c.outreach_id _ w.active (Consents-append st _ hs) h, tt)))

  Keeps-record_consent :
      (c : Claims) (st : ActiveState) (text : String) (row : Row)
      → Consents st
      → Keeps Any (record_consent env c st text row)
  unfolding record_consent
  Keeps-record_consent c st text row hs w h =
      let now = env.clock w.asked in
      let put = λ (st' : ActiveState). put_state env c.outreach_id st' in
      Keeps-if Any (is_affirmative env text)
        (put (started env st text now) >>= λ _. accept env c (started env st text now) row now)
        (put (heard env st text now) >>= λ _. decline env c row now)
        (λ agreed u g.
          let ready : Consents (started env st text now) =
            λ e. (st.transcript, [], now, text, agreed, refl) in
          Keeps-accept c (started env st text now) row now ready
            (record u { active = insert c.outreach_id (started env st text now) u.active })
            (AllConsent-insert c.outreach_id (started env st text now) u.active ready g))
        (λ u g.
          Keeps-decline c row now
            (record u { active = insert c.outreach_id (heard env st text now) u.active })
            (AllConsent-insert c.outreach_id (heard env st text now) u.active
              (Consents-append st _ hs) g))
        (record w { asked = suc w.asked }) h

  Keeps-reply_to :
      (c : Claims) (st : ActiveState) (ack : String)
      → Consents st
      → Keeps Any (reply_to env c st ack)
  unfolding reply_to
  Keeps-reply_to c st ack hs w h = (
    AllConsent-insert c.outreach_id _ _ (Consents-append st _ hs)
        (AllConsent-insert c.outreach_id st w.active hs h),
    tt,
  )

  Keeps-answer :
      (c : Claims) (st : ActiveState) (text : String)
      → Consents st
      → Keeps Any (answer env c st text)
  unfolding answer acknowledge
  Keeps-answer c st text hs w h =
      let now = env.clock w.asked in
      let said : Consents (told env st text now) = Consents-append st _ hs in
      let question = or_else (get_elem? c.questions st.question_index) wrap_up_text in
      Keeps-seq Any Any
        (if is_skip env text
          then pure "No problem, we'll skip that."
          else acknowledge env c question text)
        (reply_to env c (record (told env st text now) { question_index = suc st.question_index }))
        (Keeps-if Any (is_skip env text) _ _ (λ e u g. (g, tt))
          (Keeps-seq Any Any (ask_model env (acknowledgement env c question text) false)
            (λ response. pure (env.strip response.text)) (Keeps-ask_model _ false)
            (λ a q u g. (g, tt))))
        (λ ack q. Keeps-reply_to c _ ack said)
        (record w {
          asked = suc w.asked;
          active = insert c.outreach_id (told env st text now) w.active;
        })
        (AllConsent-insert c.outreach_id (told env st text now) w.active said h)

  pub Keeps-respond :
      (c : Claims) (row : Row) (text : String) (st : ActiveState)
      → Consents st
      → Keeps Any (respond env c row text st)
  unfolding respond
  Keeps-respond c row text st hs =
      Keeps-if Any st.consent_confirmed _ _ (λ e. Keeps-answer c st text hs)
        (Keeps-record_consent c st text row hs)
