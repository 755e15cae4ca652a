-- ===== src/App/Outreach/Suppression.antt =====
-- Who is written to: app/outreach.py's `send_outreach` and `is_suppressed`.
use hacknation_hackathon.Base.{
  ℕ, suc, String, Bool, true, false, ◌≡◌, refl, Option, none, some, [], ◌∷◌, ◌++◌, ok, err, subst,
  ap, sym, ◌∙◌, ◌⊎◌, inl, inr, if◌then◌else◌,
}
use hacknation_hackathon.Base.Text.{or_text}
use hacknation_hackathon.Json.{Row, get_str}
use hacknation_hackathon.App.World.{
  suppressed_person, OutreachMail, Environment, World, send, upsert, send_ok, AppError, >>=-eq-err,
  upsert_err, send_err, pure, raise,
}
use hacknation_hackathon.App.Outreach.{
  OutreachRequest, OutreachResult, outreach_table, is_suppressed, render_email,
}
use hacknation_hackathon.App.Outreach.Sending.{
  venture_row, pick_founder, write_to, deliver_and_store, mail_for, sent_row, question_plan,
  send_outreach, send_to, gated, store_sent, result_for,
}

abbrev pub person_id_of : Row → String
person_id_of founder = or_text (get_str founder "person_id") ""

module _ {S : Type 0} (env : Environment S) (request : OutreachRequest) where
  -- What a call that returns has done: one mail more, to the address that it returns, and the row of
  -- that mail written, with the hash of the token and the open questions of the venture.
  pub record Delivery (founder : Row) (mail : OutreachMail) (out : OutreachResult) (w w' : World S)
      : Type 0 where
    pub one_mail : w'.sent ≡ w.sent ++ mail ∷ []
    pub addressed : mail.to_email ≡ or_text (get_str founder "to_email") ""
    pub recipient : out.to_email ≡ or_text (get_str founder "to_email") ""
    pub now : ℕ
    pub stored :
        env.upsert outreach_table
          (sent_row env request founder mail now out.token out.outreach_id
              (question_plan env w.store request.venture_id)
            ∷ [])
          w.store
        ≡ ok w'.store

  -- What a call that raised has done: nothing, or one mail to a founder who is not suppressed, whose
  -- row the store refused with the exception.
  abbrev pub Refused : World S → AppError → World S → Type 0
  Refused w e w' =
      (founder : Row) × (mail : OutreachMail) × (row : Row) × (pick_founder env w.store
          request.venture_id
        ≡ some founder)
      × (is_suppressed env w.store (person_id_of founder) ≡ false)
      × (mail.to_email ≡ or_text (get_str founder "to_email") "")
      × (w'.sent ≡ w.sent ++ mail ∷ [])
      × (env.upsert outreach_table (row ∷ []) w.store ≡ err e)

  abbrev pub Failed : World S → AppError → World S → Type 0
  Failed w e w' = (w'.store ≡ w.store) × ((w'.sent ≡ w.sent) ⊎ Refused w e w')

  store_sent_err :
      (founder : Row) (mail : OutreachMail) (now : ℕ) (token : String) (u : World S) {e : AppError}
      {w' : World S}
      → store_sent env request founder mail now token u ≡ (err e, w')
      → (w'.store ≡ u.store)
        × (w'.sent ≡ u.sent)
        × ((row : Row) × (env.upsert outreach_table (row ∷ []) u.store ≡ err e))
  unfolding store_sent
  store_sent_err founder mail now token u {e} {w'} h =
      let id = env.new_id u.asked in
      let u' : World S = record u { asked = suc u.asked } in
      let row =
        sent_row env request founder mail now token id
          (question_plan env u.store request.venture_id) in
      elim (>>=-eq-err (upsert env outreach_table (row ∷ []))
        (λ _. pure (result_for env request founder token id)) u' h) [
          | inl k ↦
              let (refused, store, sent) = upsert_err env outreach_table (row ∷ []) u' w' k in
              (store, sent, (row, refused))
          | inr (a, v, k, k') ↦ absurd (let k'' = k' in cc)
        ]

  gated_err :
      (venture founder : Row) (w : World S) {e : AppError} {w' : World S}
      → pick_founder env w.store request.venture_id ≡ some founder
      → gated env request venture founder w ≡ (err e, w')
      → Failed w e w'
  unfolding gated write_to deliver_and_store mail_for render_email
  gated_err venture founder w {e} {w'} picked h =
      go (is_suppressed env w.store (person_id_of founder)) refl h
    where
      token : String
      token = env.new_token (suc w.asked)

      mail : OutreachMail
      mail = mail_for env request venture founder token

      w₁ : World S
      w₁ = record w { asked = suc (suc w.asked) }

      go :
          (b : Bool)
          → is_suppressed env w.store (person_id_of founder) ≡ b
          → (if b
              then raise (suppressed_person (person_id_of founder)) w
              else write_to env request venture founder w)
            ≡ (err e, w')
          → Failed w e w'
      go true s k = (ap (λ p. p.1.store) (sym k), inl (ap (λ p. p.1.sent) (sym k)))
      go false s k =
          elim (>>=-eq-err (send env mail)
            (λ _. store_sent env request founder mail (env.clock w.asked) token) w₁ k) [
              | inl d ↦ let (store, sent) = send_err env mail w₁ w' d in (store, inl sent)
              | inr (a, u, d, d') ↦
                  let (sent, store) = send_ok env mail w₁ u d in
                  let (store', sent', (row, refused)) =
                    store_sent_err founder mail (env.clock w.asked) token u d' in
                  (
                    store' ∙ store,
                    inr (
                      founder,
                      mail,
                      row,
                      picked,
                      s,
                      refl,
                      sent' ∙ sent,
                      subst (λ x. env.upsert outreach_table (row ∷ []) x ≡ err e) store refused,
                    ),
                  )
            ]

  -- A send that raises leaves the store as it was, and delivered no mail, or one mail to the
  -- address of a founder whom the store does not suppress, after which the store refused a row of
  -- gold.outreach with the exception that is raised.
  pub send_outreach_fails :
      (w : World S) {e : AppError} {w' : World S}
      → send_outreach env request w ≡ (err e, w')
      → Failed w e w'
  unfolding send_outreach send_to
  send_outreach_fails w {e} {w'} h =
      go (venture_row env w.store request.venture_id) (pick_founder env w.store request.venture_id)
        refl h
    where
      go :
          (v f : Option Row)
          → pick_founder env w.store request.venture_id ≡ f
          → send_to env request v f w ≡ (err e, w')
          → Failed w e w'
      go none f q k = (ap (λ p. p.1.store) (sym k), inl (ap (λ p. p.1.sent) (sym k)))
      go (some venture) none q k = (ap (λ p. p.1.store) (sym k), inl (ap (λ p. p.1.sent) (sym k)))
      go (some venture) (some founder) q k = gated_err venture founder w q k
