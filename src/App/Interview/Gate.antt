-- ===== src/App/Interview/Gate.antt =====
-- What a completed interview of app/interview.py had: a bound session and a consent on record.
use hacknation_hackathon.Base.{
  ℕ, suc, String, Bool, true, false, ◌≡◌, refl, Option, none, some, List, [], ◌∷◌, ◌==◌, eq_iff,
  arith, Result, ok, subst, ap, sym, ◌∙◌, if◌then◌else◌, ok-injective,
}
use hacknation_hackathon.Base.Dict.{get, insert}
use hacknation_hackathon.Json.{Row}
use hacknation_hackathon.App.World.{
  AppError, Environment, World, ActiveState, ask_model, ◌>>=◌, pure, raise, >>=-eq-ok, upsert_ok,
  session_bound, consent_required,
}
use hacknation_hackathon.App.Outreach.{transition_outreach}
use hacknation_hackathon.App.Interview.{
  Claims, claims, state, bound, new_state, outreach_row, step_to,
}
use hacknation_hackathon.App.Interview.Completion.{
  violations, checked, extract, extraction_prompt, persist_interview, interview_row,
  rescore_and_close, store_interview, finish, complete_from, complete_with, complete,
}
use hacknation_hackathon.App.Interview.Consent.{Consents, AllConsent}
use hacknation_hackathon.App.Interview.History.{Call, after_all, after_all-AllConsent}
use hacknation_hackathon.App.Interview.Token.{Same, claims-Same, Valid, claims_ok}

module _ {S : Type 0} (env : Environment S) where
  state_ok :
      (id session : String) (u : World S) {st : ActiveState} {v : World S}
      → state env id session u ≡ (ok st, v)
      → (v.store ≡ u.store)
        × (st.consent_confirmed ≡ true → (get u.active id ≡ some st) × (st.session ≡ session))
  unfolding state bound
  state_ok id session u {st} {v} h = go (get u.active id) refl h
    where
      bound_ok :
          (st' : ActiveState) (b : Bool)
          → get u.active id ≡ some st'
          → st'.session == session ≡ b
          → ◌≡◌ {A = Result AppError ActiveState × World S}
              ((if b then pure st' else raise session_bound) u)
              (ok st, v)
          → (v.store ≡ u.store)
            × (st.consent_confirmed ≡ true → (get u.active id ≡ some st) × (st.session ≡ session))
      bound_ok st' true e same h' =
          let st_eq : st' ≡ st = ok-injective (ap (λ p. p.0) h') in
          let bound_to : st'.session ≡ session = ground (arith, eq_iff st'.session session) in
          (
            ap (λ p. p.1.store) (sym h'),
            λ _. (e ∙ ap some st_eq, subst (λ x. x.session ≡ session) st_eq bound_to),
          )
      bound_ok st' false e same h' = cc

      go :
          (o : Option ActiveState)
          → get u.active id ≡ o
          → ◌≡◌ {A = Result AppError ActiveState × World S}
              (elim o [
                | some st' ↦ bound env session st' u
                | none ↦ (
                  ok (new_state session),
                  record u { active = insert id (new_state session) u.active },
                )
              ])
              (ok st, v)
          → (v.store ≡ u.store)
            × (st.consent_confirmed ≡ true → (get u.active id ≡ some st) × (st.session ≡ session))
      go none e h' =
          let st_eq : new_state session ≡ st = ok-injective (ap (λ p. p.0) h') in
          (
            ap (λ p. p.1.store) (sym h'),
            λ c. let f : false ≡ true = ap (λ x. x.consent_confirmed) st_eq ∙ c in cc,
          )
      go (some st') e h' = bound_ok st' (st'.session == session) e refl h'

  violations-store :
      (r : Row) (es : List String) (w : World S) {x : Row} {v : World S}
      → violations env r es w ≡ (ok x, v)
      → v.store ≡ w.store
  unfolding violations
  violations-store r [] w h = ap (λ p. p.1.store) (sym h)
  violations-store r (e ∷ es) w h = cc

  checked-store :
      (o : Option Row) (w : World S) {x : Row} {v : World S}
      → checked env o w ≡ (ok x, v)
      → v.store ≡ w.store
  unfolding checked
  checked-store none w h = cc
  checked-store (some r) w h = violations-store r (env.payload_errors r) w h

  complete_from_ok :
      (c : Claims) (row : Row) (st : ActiveState) (v : World S) {out : Row} {w' : World S}
      → complete_from env c row st v ≡ (ok out, w')
      → (st.consent_confirmed ≡ true)
        × ((extracted : Row) × (id : String) × (now : ℕ) × (s : S) × (env.upsert "gold.interview"
                (interview_row env c st extracted id now ∷ [])
                v.store
              ≡ ok s))
  unfolding complete_from extract finish store_interview
  complete_from_ok c row st v {out} {w'} h = go st.consent_confirmed refl h
    where
      go :
          (b : Bool)
          → st.consent_confirmed ≡ b
          → ◌≡◌ {A = Result AppError Row × World S}
              ((if b then extract env c st >>= finish env c st row else raise consent_required) v)
              (ok out, w')
          → (st.consent_confirmed ≡ true)
            × ((extracted : Row) × (id : String) × (now : ℕ) × (s : S) × (env.upsert
                    "gold.interview"
                    (interview_row env c st extracted id now ∷ [])
                    v.store
                  ≡ ok s))
      go false e h' = cc
      go true e h' =
          let (extracted, x, h1, h2) = >>=-eq-ok (extract env c st) (finish env c st row) v h' in
          let (response, y₀, h0, h0') =
            >>=-eq-ok (ask_model env (extraction_prompt env c st) true)
              (λ response. checked env response.parsed) v h1 in
          let same = checked-store response.parsed y₀ h0' ∙ ap (λ p. p.1.store) (sym h0) in
          let now = env.clock x.asked in
          let id = env.new_id (suc x.asked) in
          let interview = interview_row env c st extracted id now in
          let x' : World S = record x { asked = suc (suc x.asked) } in
          let (a, y, h3, h4) =
            >>=-eq-ok (persist_interview env interview)
              (λ _. transition_outreach env row (step_to env "interviewed" c now none) >>= λ _.
                rescore_and_close env c interview id)
              x' h2 in
          let (written, sent, active) = upsert_ok env "gold.interview" (interview ∷ []) x' y h3 in
          (
            e,
            (
              extracted,
              id,
              now,
              y.store,
              subst (λ s. env.upsert "gold.interview" (interview ∷ []) s ≡ ok y.store) same written,
            ),
          )

  -- What the interview of a call of `complete` that returns was.
  pub record Consented (token session : String) (w : World S) : Type 0 where
    pub claimed : Claims
    pub row : Row
    pub reached : World S
    pub accepted : claims env token w ≡ (ok (claimed, row), reached)
    pub of_token : outreach_row env w.store token ≡ some row
    pub valid : Valid env row w
    pub interview : ActiveState
    pub bound_to :
        (get w.active claimed.outreach_id ≡ some interview) × (interview.session ≡ session)
    pub consent : Consents env interview
    pub confirmed : interview.consent_confirmed ≡ true
    pub stored :
        (extracted : Row) × (id : String) × (now : ℕ) × (s : S) × (env.upsert "gold.interview"
            (interview_row env claimed interview extracted id now ∷ [])
            w.store
          ≡ ok s)

  -- After any calls, also ones that raise, of an engine that starts with no open interview, a
  -- `complete` that returns had a token whose hash is that of a row of an open status and no
  -- passed expiry, an open interview bound to the same session, and the consent prompt with an
  -- affirmative answer in its transcript, and it stored that transcript.
  pub complete-Consented :
      (calls : List Call) (start : World S)
      → start.active ≡ []
      → (token session : String) {out : Row} {w' : World S}
      → complete env token session (after_all env calls start) ≡ (ok out, w')
      → Consented token session (after_all env calls start)
  unfolding complete complete_with get
  complete-Consented calls start fresh token session h =
      let w = after_all env calls start in
      let none_open : AllConsent env start.active = λ id st e.
        let f : ◌≡◌ {A = Option ActiveState} none (some st) = ap (λ d. get d id) (sym fresh) ∙ e in
        cc in
      let ((c, row), u, h1, h2) = >>=-eq-ok (claims env token) (complete_with env session) w h in
      let (st, v, h3, h4) =
        >>=-eq-ok (state env c.outreach_id session) (complete_from env c row) u h2 in
      let (store, known) = state_ok c.outreach_id session u h3 in
      let (confirmed, (extracted, id, now, s, written)) = complete_from_ok c row st v h4 in
      let (here, bound_to) = known confirmed in
      let (active, store') = subst (λ p. Same env w p.1) h1 (claims-Same env token w) in
      let open_here : get w.active c.outreach_id ≡ some st =
        ap (λ d. get d c.outreach_id) (sym active) ∙ here in
      record {
        claimed = c;
        row = row;
        reached = u;
        accepted = h1;
        of_token = (claims_ok env token w h1).0;
        valid = (claims_ok env token w h1).1;
        interview = st;
        bound_to = (open_here, bound_to);
        consent = after_all-AllConsent env calls start none_open c.outreach_id st open_here;
        confirmed = confirmed;
        stored = (
          extracted,
          id,
          now,
          s,
          subst
              (λ x.
                env.upsert "gold.interview" (interview_row env c st extracted id now ∷ []) x ≡ ok s)
              (store ∙ store') written,
        );
      }
