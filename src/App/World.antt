-- ===== src/App/World.antt =====
-- What app/outreach.py and app/interview.py run against. The store, the mailer, the language model and
-- the rescorer are protocols there, and time, ids and tokens are injected: here they are an
-- environment, which is asked with the number of the question, so that two readings of the clock may
-- differ. An action keeps what it has written when it raises.
use hacknation_hackathon.Base.{
  ℕ, suc, String, Bool, ◌≡◌, refl, ap, sym, ◌∙◌, Option, List, [], ◌∷◌, ◌++◌, Result, ok, err,
  err-injective, ◌⊎◌, inl, inr,
}
use hacknation_hackathon.Base.Dict.{Dict}
use hacknation_hackathon.Base.Float.{Float}
use hacknation_hackathon.Base.Int.{ℤ}
use hacknation_hackathon.Json.{Json, Row}

-- The exceptions of the two modules, and what a seam may raise.
pub data AppError : Type 0 where
  unknown_venture missing_contact suppressed_person : String → AppError
  bad_status bad_timestamp : String → AppError
  invalid_token expired_token session_bound consent_required : AppError
  consumed_token : String → AppError
  extraction_invalid : List String → AppError
  raised : String → AppError

pub record OutreachMail : Type 0 where
  pub to_email : String
  pub subject : String
  pub body : String

pub record LlmResponse : Type 0 where
  pub text : String
  pub parsed : Option Row

pub record RescoreOutcome : Type 0 where
  pub status : String
  pub score_rows : List Row

-- `_ActiveState`: the progress of one interview.
pub record ActiveState : Type 0 where
  pub session : String
  pub transcript : List Json
  pub question_index : ℕ
  pub consent_confirmed : Bool
  pub started_at : Option ℕ

pub record Environment (S : Type 0) : Type 0 where
  -- `DataStore`; a write may raise
  pub rows : S → String → List Row
  pub upsert : String → List Row → S → Result AppError S
  -- `Mailer.send`, `LLMClient.complete`, the rescorer
  pub deliver : ℕ → OutreachMail → Result AppError (Unit {0})
  pub complete : ℕ → String → Bool → Result AppError LlmResponse
  pub rescore : Row → S → Result AppError RescoreOutcome × S
  -- the clock, the id factory, `secrets.token_hex`
  pub clock : ℕ → ℕ
  pub new_id : ℕ → String
  pub new_token : ℕ → String
  -- `hashlib.sha256(…).hexdigest()`, `isoformat`, `fromisoformat` read as UTC (`none` is its
  -- ValueError), `str.strip`, `str.lower`, and the violations that jsonschema finds in an
  -- extracted interview
  pub sha256 : String → String
  pub isoformat : ℕ → String
  pub as_utc : String → Option ℕ
  pub strip : String → String
  pub lower : String → String
  pub payload_errors : Row → List String
  -- `float(n)` of an integer
  pub of_int : ℤ → Float
  pub model_version : String

pub record World (S : Type 0) : Type 0 where
  pub store : S
  pub sent : List OutreachMail
  pub active : Dict ActiveState
  -- the number of questions asked of the environment
  pub asked : ℕ

abbrev pub Action : Type 0 → Type 0 → Type 0
Action S A = World S → Result AppError A × World S

module _ {S : Type 0} where
  infixl 5 ◌>>=◌
  abbrev pub ◌>>=◌ : {A B : Type 0} (call : Action S A) (next : A → Action S B) → Action S B
  ◌>>=◌ m f w = let (r, w') = m w in elim r [ ok a ↦ f a w' | err e ↦ (err e, w') ]

  infixl 5 ◌>>◌
  abbrev pub ◌>>◌ : {A B : Type 0} → Action S A → Action S B → Action S B
  first >> second = first >>= λ done. second

  abbrev pub pure : {A : Type 0} → A → Action S A
  pure a w = (ok a, w)

  abbrev pub raise : {A : Type 0} → AppError → Action S A
  raise e w = (err e, w)

  abbrev pub lift : {A : Type 0} → Result AppError A → Action S A
  lift r w = (r, w)

  -- The next answer of a source that differs from call to call.
  abbrev pub ask : {A : Type 0} → (ℕ → A) → Action S A
  ask f w = (ok (f w.asked), record w { asked = suc w.asked })

  -- `LLMClient.complete`, which may raise; with a schema or without
  abbrev pub ask_model : Environment S → String → Bool → Action S LlmResponse
  ask_model env prompt structured w =
      (env.complete w.asked prompt structured, record w { asked = suc w.asked })

  abbrev pub fetch : Environment S → String → Action S (List Row)
  fetch env table w = (ok (env.rows w.store table), w)

  -- A value read off the store.
  abbrev pub look : {A : Type 0} → (S → A) → Action S A
  look f w = (ok (f w.store), w)

  -- After a write that raises the store is as it was.
  abbrev pub written : World S → Result AppError S → Result AppError (Unit {0}) × World S
  written w (ok s) = (ok tt, record w { store = s })
  written w (err e) = (err e, w)

  abbrev pub upsert : Environment S → String → List Row → Action S (Unit {0})
  upsert env table rows w = written w (env.upsert table rows w.store)

  -- `Mailer.send`: a mail that is delivered is kept, as `RecordingMailer` keeps it.
  abbrev pub delivered :
      World S → OutreachMail → Result AppError (Unit {0}) → Result AppError (Unit {0}) × World S
  delivered w mail (ok u) = (ok u, record w { sent = w.sent ++ mail ∷ [] })
  delivered w mail (err e) = (err e, w)

  abbrev pub send : Environment S → OutreachMail → Action S (Unit {0})
  send env mail w = delivered (record w { asked = suc w.asked }) mail (env.deliver w.asked mail)

  -- Inversion of a sequence that ended well.
  pub >>=-eq-ok :
      {A B : Type 0} (m : Action S A) (k : A → Action S B) (w : World S) {b : B} {w' : World S}
      → (m >>= k) w ≡ (ok b, w')
      → (a : A) × (u : World S) × (m w ≡ (ok a, u)) × (k a u ≡ (ok b, w'))
  >>=-eq-ok {A} {B} m k w {b} {w'} h = go (m w) refl h
    where
      go :
          (r : Result AppError A × World S)
          → m w ≡ r
          → (let (x, v) = r in elim x [ ok a ↦ k a v | err e ↦ (err e, v) ]) ≡ (ok b, w')
          → (a : A) × (u : World S) × (m w ≡ (ok a, u)) × (k a u ≡ (ok b, w'))
      go (ok a, u) e h' = (a, u, e, h')
      go (err x, u) e h' = cc

  written_ok :
      (w u : World S) (r : Result AppError S) {a : Unit {0}}
      → written w r ≡ (ok a, u)
      → (r ≡ ok u.store) × (u.sent ≡ w.sent) × (u.active ≡ w.active)
  written_ok w u (ok s) h =
      (ap (λ p. ok p.1.store) h, ap (λ p. p.1.sent) (sym h), ap (λ p. p.1.active) (sym h))
  written_ok w u (err e) h = cc

  -- A write that ended well is that of the store, and changes nothing else.
  pub upsert_ok :
      (env : Environment S) (table : String) (rows : List Row) (w u : World S) {a : Unit {0}}
      → upsert env table rows w ≡ (ok a, u)
      → (env.upsert table rows w.store ≡ ok u.store) × (u.sent ≡ w.sent) × (u.active ≡ w.active)
  upsert_ok env table rows w u h = written_ok w u (env.upsert table rows w.store) h

  delivered_ok :
      (w u : World S) (mail : OutreachMail) (r : Result AppError (Unit {0})) {a : Unit {0}}
      → delivered w mail r ≡ (ok a, u)
      → (u.sent ≡ w.sent ++ mail ∷ []) × (u.store ≡ w.store)
  delivered_ok w u mail (ok x) h = (ap (λ p. p.1.sent) (sym h), ap (λ p. p.1.store) (sym h))
  delivered_ok w u mail (err e) h = cc

  -- A mail that is delivered is the last one sent.
  pub send_ok :
      (env : Environment S) (mail : OutreachMail) (w u : World S) {a : Unit {0}}
      → send env mail w ≡ (ok a, u)
      → (u.sent ≡ w.sent ++ mail ∷ []) × (u.store ≡ w.store)
  send_ok env mail w u h =
      delivered_ok (record w { asked = suc w.asked }) u mail (env.deliver w.asked mail) h

  -- Inversion of a sequence that raised.
  pub >>=-eq-err :
      {A B : Type 0} (m : Action S A) (k : A → Action S B) (w : World S) {e : AppError}
      {w' : World S}
      → (m >>= k) w ≡ (err e, w')
      → (m w ≡ (err e, w')) ⊎ ((a : A) × (u : World S) × (m w ≡ (ok a, u)) × (k a u ≡ (err e, w')))
  >>=-eq-err {A} {B} m k w {e} {w'} h = go (m w) refl h
    where
      go :
          (r : Result AppError A × World S)
          → m w ≡ r
          → (let (x, v) = r in elim x [ ok a ↦ k a v | err y ↦ (err y, v) ]) ≡ (err e, w')
          → (m w ≡ (err e, w'))
            ⊎ ((a : A) × (u : World S) × (m w ≡ (ok a, u)) × (k a u ≡ (err e, w')))
      go (ok a, u) q h' = inr (a, u, q, h')
      go (err x, u) q h' =
          (let same : x ≡ e = err-injective (ap (λ p. p.0) h') in
            let there : u ≡ w' = ap (λ p. p.1) h' in inl (q ∙ λ i. (err (same i), there i)))

  -- A write or a mail that is refused changes neither the store nor what was sent.
  pub upsert_err :
      (env : Environment S) (table : String) (rows : List Row) (w u : World S) {e : AppError}
      → upsert env table rows w ≡ (err e, u)
      → (env.upsert table rows w.store ≡ err e) × (u.store ≡ w.store) × (u.sent ≡ w.sent)
  upsert_err env table rows w u {e} h = go (env.upsert table rows w.store) h
    where
      go :
          (r : Result AppError S)
          → written w r ≡ (err e, u)
          → (r ≡ err e) × (u.store ≡ w.store) × (u.sent ≡ w.sent)
      go (ok s) h' = cc
      go (err x) h' = (
        ap err (err-injective (ap (λ p. p.0) h')),
        ap (λ p. p.1.store) (sym h'),
        ap (λ p. p.1.sent) (sym h'),
      )

  pub send_err :
      (env : Environment S) (mail : OutreachMail) (w u : World S) {e : AppError}
      → send env mail w ≡ (err e, u)
      → (u.store ≡ w.store) × (u.sent ≡ w.sent)
  send_err env mail w u {e} h = go (env.deliver w.asked mail) h
    where
      go :
          (r : Result AppError (Unit {0}))
          → delivered (record w { asked = suc w.asked }) mail r ≡ (err e, u)
          → (u.store ≡ w.store) × (u.sent ≡ w.sent)
      go (ok x) h' = cc
      go (err x) h' = (ap (λ p. p.1.store) (sym h'), ap (λ p. p.1.sent) (sym h'))

  -- A sequence whose parts return.
  pub seq_ok :
      {A B : Type 0} (m : Action S A) (k : A → Action S B) (w : World S) {a : A} {u : World S}
      {p : Result AppError B × World S}
      → m w ≡ (ok a, u)
      → k a u ≡ p
      → (m >>= k) w ≡ p
  seq_ok {A} {B} m k w h h' =
      let next : Result AppError A × World S → Result AppError B × World S = λ (r, v).
        elim r as (λ _. Result AppError B × World S) [ ok x ↦ k x v | err x ↦ (err x, v) ] in
      ap next h ∙ h'
