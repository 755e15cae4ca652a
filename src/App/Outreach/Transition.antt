-- ===== src/App/Outreach/Transition.antt =====
-- The state machine of gold.outreach: app/outreach.py's `transition_outreach`.
use hacknation_hackathon.Base.{
  ℕ, String, Bool, true, false, ◌≡◌, refl, Option, none, some, List, [], ◌∷◌, ◌++◌, contains, ◌==◌,
  arith, ok, ok-injective, subst, ap, ◌∙◌, if◌then◌else◌,
}
use hacknation_hackathon.Base.Dict.{get, get-insert_self, get-insert_other}
use hacknation_hackathon.Json.{Json, Row, str, as_list, read, items-to_items}
use hacknation_hackathon.App.World.{
  bad_status, Environment, World, >>=-eq-ok, upsert, upsert_ok, pure, raise, ◌>>=◌,
}
use hacknation_hackathon.App.Outreach.{
  OutreachTransition, outreach_table, outreach_statuses, set_consent, append_history, history_entry,
  transitioned, transition_outreach,
}

-- The columns that a transition writes.
abbrev pub stamped : List String
stamped = "status" ∷ "last_event_at" ∷ "updated_at" ∷ "consent_at" ∷ "history" ∷ []

module _ {S : Type 0} (env : Environment S) (row : Row) (step : OutreachTransition) where
  pub record Transition (updated : Row) (w w' : World S) : Type 0 where
    pub known : contains step.status outreach_statuses ≡ true
    pub status : get updated "status" ≡ some (str step.status)
    pub history :
        read as_list (get updated "history")
        ≡ read as_list (get row "history") ++ history_entry env step.status step.actor step.now ∷ []
    pub kept :
        (column : String) → contains column stamped ≡ false → get updated column ≡ get row column
    pub stored : env.upsert outreach_table (updated ∷ []) w.store ≡ ok w'.store
    pub quiet : (w'.sent ≡ w.sent) × (w'.active ≡ w.active)

  get-set_consent :
      (at : Option ℕ) (r : Row) (column : String)
      → "consent_at" == column ≡ false
      → get (set_consent env at r) column ≡ get r column
  unfolding set_consent
  get-set_consent none r column h = refl
  get-set_consent (some at) r column h = get-insert_other "consent_at" column _ r h

  status-transitioned : get (transitioned env row step) "status" ≡ some (str step.status)
  unfolding transitioned
  status-transitioned =
      get-insert_other "history" "status" _ _ refl
      ∙ get-set_consent step.consent_at _ "status" refl
      ∙ get-insert_other "updated_at" "status" _ _ refl
      ∙ get-insert_other "last_event_at" "status" _ _ refl
      ∙ get-insert_self "status" _ row

  read-default : (v : Option Json) → as_list (read (λ j. j) v) ≡ read as_list v
  read-default none = refl
  read-default (some v) = refl

  history-transitioned :
      read as_list (get (transitioned env row step) "history")
      ≡ read as_list (get row "history") ++ history_entry env step.status step.actor step.now ∷ []
  unfolding transitioned append_history
  history-transitioned =
      ap (read as_list) (get-insert_self "history" _ _)
      ∙ items-to_items _
      ∙ ap (λ xs. xs ++ history_entry env step.status step.actor step.now ∷ [])
          (read-default (get row "history"))

  kept-transitioned :
      (column : String)
      → contains column stamped ≡ false
      → get (transitioned env row step) column ≡ get row column
  unfolding transitioned
  kept-transitioned column h =
      get-insert_other "history" column _ _ (ground arith)
      ∙ get-set_consent step.consent_at _ column (ground arith)
      ∙ get-insert_other "updated_at" column _ _ (ground arith)
      ∙ get-insert_other "last_event_at" column _ _ (ground arith)
      ∙ get-insert_other "status" column _ row (ground arith)

  -- A transition that returns had a status of the state machine and stored the row it returns: it
  -- has the status, its history is the old one and one entry, every other column but the stamps is
  -- as it was, and no mail or interview changes.
  pub transition_outreach_moves :
      (w : World S) {updated : Row} {w' : World S}
      → transition_outreach env row step w ≡ (ok updated, w')
      → Transition updated w w'
  unfolding transition_outreach
  transition_outreach_moves w {updated} {w'} h = go (contains step.status outreach_statuses) refl h
    where
      go :
          (b : Bool)
          → contains step.status outreach_statuses ≡ b
          → (if b
                then upsert env outreach_table (transitioned env row step ∷ [])
                  >>= (λ _. pure (transitioned env row step))
                else raise (bad_status step.status))
              w
            ≡ (ok updated, w')
          → Transition updated w w'
      go false e h' = cc
      go true e h' =
          let (a, u, h1, h2) =
            >>=-eq-ok (upsert env outreach_table (transitioned env row step ∷ []))
              (λ _. pure (transitioned env row step)) w h' in
          let (stored, sent, active) =
            upsert_ok env outreach_table (transitioned env row step ∷ []) w u h1 in
          subst (λ r. Transition r w w') (ok-injective (ap (λ p. p.0) h2))
            (subst (λ x. Transition (transitioned env row step) w x) (ap (λ p. p.1) h2)
              record {
                known = e;
                status = status-transitioned;
                history = history-transitioned;
                kept = kept-transitioned;
                stored = stored;
                quiet = (sent, active);
              })
