-- ===== src/App/Interview/OptOut.antt =====
-- The one-click opt-out of app/interview.py, and what app/outreach.py makes of it.
use hacknation_hackathon.Base.{
  suc, String, Bool, true, false, ◌≡◌, refl, none, some, List, [], ◌∷◌, ◌&&◌, ◌==◌, eq_refl, any,
  ok, subst, ap, ◌∙◌,
}
use hacknation_hackathon.Base.Dict.{get, remove, get-remove}
use hacknation_hackathon.Base.Text.{or_text}
use hacknation_hackathon.Json.{Row, get_str, read, as_str}
use hacknation_hackathon.App.World.{
  Environment, World, written, upsert, seq_ok, ◌>>=◌, pure, >>=-eq-ok,
}
use hacknation_hackathon.App.Outreach.{
  outreach_table, field_is, is_suppressed, transitioned, transition_outreach,
}
use hacknation_hackathon.App.Outreach.Transition.{transition_outreach_moves}
use hacknation_hackathon.App.Interview.{outreach_row}
use hacknation_hackathon.App.Interview.Completion.{
  opting_out, opt_out_row, opt_out_found, opt_out, close,
}

-- The other row has every text of the row.
abbrev pub KeepsTexts : Row → Row → Type 0
KeepsTexts row other = (k t : String) → get_str row k ≡ some t → get_str other k ≡ some t

module _ {S : Type 0} (env : Environment S) where
  -- The protocol of `DataStore`: a row that a write has merged is among the rows of its table, with
  -- its texts; a store may give its other values another form, a timestamp that of its text.
  abbrev pub ReadsBack : Type 0
  ReadsBack =
      (row : Row) (s s' : S)
      → env.upsert outreach_table (row ∷ []) s ≡ ok s'
      → (p : Row → Bool) → ((other : Row) → KeepsTexts row other → p other ≡ true)
      → any p (env.rows s' outreach_table) ≡ true

  opted_out_suppresses :
      (store : S) (person_id : String)
      → any
          (λ row. field_is row "person_id" person_id && field_is row "status" "opted_out")
          (env.rows store outreach_table)
        ≡ true
      → is_suppressed env store person_id ≡ true
  unfolding is_suppressed
  opted_out_suppresses store person_id h = rw h refl

  field_is_of :
      (row : Row) (key text : String) → get_str row key ≡ some text → field_is row key text ≡ true
  field_is_of row key text h =
      ap (λ o. elim o as (λ _. Bool) [ some s ↦ s == text | none ↦ false ]) h ∙ eq_refl text

  opts_out :
      (person_id : String) (updated : Row)
      → get_str updated "person_id" ≡ some person_id
      → get_str updated "status" ≡ some "opted_out"
      → (field_is updated "person_id" person_id && field_is updated "status" "opted_out") ≡ true
  opts_out person_id updated hp hs =
      let person = field_is_of updated "person_id" person_id hp in
      let out = field_is_of updated "status" "opted_out" hs in λ i. person i && out i

  -- Where a row that is written to gold.outreach is among the rows of the table with its texts, an
  -- opt-out that returns, having found a row with a person, leaves a store that suppresses that
  -- person, and the interview of the row is no longer open.
  pub opt_out_honoured :
      ReadsBack
      → (token person_id : String) (row : Row) (w : World S) {w' : World S}
      → outreach_row env w.store token ≡ some row
      → get_str row "person_id" ≡ some person_id
      → opt_out env token w ≡ (ok true, w')
      → (is_suppressed env w'.store person_id ≡ true)
        × (get w'.active (or_text (get_str row "outreach_id") "") ≡ none)
  unfolding opt_out opt_out_found opt_out_row
  opt_out_honoured reads token person_id row w {w'} found hp h =
      let h' : opt_out_found env (some row) w ≡ (ok true, w') =
        subst (λ o. opt_out_found env o w ≡ (ok true, w')) found h in
      let id = or_text (get_str row "outreach_id") "" in
      let w₁ : World S = record w { asked = suc w.asked } in
      let step = opting_out env row (env.clock w.asked) in
      let (updated, u, h1, h2) =
        >>=-eq-ok (transition_outreach env row step) (λ _. close env id >>= λ _. pure true) w₁ h' in
      let moved = transition_outreach_moves env row step w₁ h1 in
      let store : u.store ≡ w'.store = ap (λ p. p.1.store) h2 in
      let active : remove id u.active ≡ w'.active = ap (λ p. p.1.active) h2 in
      (
        subst (λ s. is_suppressed env s person_id ≡ true) store
            (opted_out_suppresses u.store person_id (
              reads updated w₁.store u.store moved.stored _ (λ other keeps.
                opts_out person_id other
                  (keeps "person_id" person_id
                    (ap (read as_str) (moved.kept "person_id" refl) ∙ hp))
                  (keeps "status" "opted_out" (ap (read as_str) moved.status))))),
        subst (λ d. get d id ≡ none) active (get-remove id id u.active ∙ rw (eq_refl id) refl),
      )

  -- Where the store accepts every write to gold.outreach, an opt-out that finds its row returns
  -- true, whatever the status or the expiry of the row.
  pub opt_out_returns :
      ((rows : List Row) (s : S) → (s' : S) × (env.upsert outreach_table rows s ≡ ok s'))
      → (token : String) (row : Row) (w : World S) → outreach_row env w.store token ≡ some row
      → (w' : World S) × (opt_out env token w ≡ (ok true, w'))
  unfolding opt_out opt_out_found opt_out_row transition_outreach
  opt_out_returns writes token row w found =
      let w₁ : World S = record w { asked = suc w.asked } in
      let step = opting_out env row (env.clock w.asked) in
      let moved = transitioned env row step in
      let (s', e) = writes (moved ∷ []) w.store in
      let stored = ap (written w₁) e in
      let id = or_text (get_str row "outreach_id") "" in
      (
        _,
        ap (λ o. opt_out_found env o w) found
            ∙ seq_ok (transition_outreach env row step) (λ _. close env id >>= λ _. pure true) w₁
                (seq_ok (upsert env outreach_table (moved ∷ [])) (λ _. pure moved) w₁ stored refl)
                refl,
      )
