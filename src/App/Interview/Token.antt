-- ===== src/App/Interview/Token.antt =====
-- The claims of a token of app/interview.py: what they rest on, and that they change nothing.
use hacknation_hackathon.Base.{
  ℕ, suc, String, Bool, true, false, ◌≡◌, refl, Option, none, some, Result, ok, err, ltb, contains,
  subst, ap, sym, ◌∙◌, if◌then◌else◌, ok-injective,
}
use hacknation_hackathon.Json.{Row, get_str}
use hacknation_hackathon.App.World.{
  AppError, Environment, World, lift, ◌>>=◌, pure, raise, >>=-eq-ok, consumed_token, expired_token,
}
use hacknation_hackathon.App.Interview.{
  Claims, claims, claims_from, claims_of, found, check_expiry, as_utc, claims_at, outreach_row,
  open_statuses, status_of,
}

module _ {S : Type 0} (env : Environment S) where
  -- The engine's open interviews and the store are as they were.
  abbrev pub Same : World S → World S → Type 0
  Same w u = (u.active ≡ w.active) × (u.store ≡ w.store)

  abbrev world_of : {A : Type 0} → Result AppError A × World S → World S
  world_of p = p.1

  check_expiry-Same : (at : Option ℕ) (w : World S) → Same w (check_expiry env at w).1
  unfolding check_expiry
  check_expiry-Same none w = (refl, refl)
  check_expiry-Same (some at) w = go (ltb at (env.clock w.asked))
    where
      go :
          (b : Bool)
          → Same w
              ((if b then raise expired_token else pure tt) (record w { asked = suc w.asked })).1
      go true = (refl, refl)
      go false = (refl, refl)

  claims_at-Same : (row : Row) (at : Option ℕ) (w : World S) → Same w (claims_at env row at w).1
  unfolding claims_at
  claims_at-Same row at w = checked_row (check_expiry env at w) (check_expiry-Same at w)
    where
      checked_row :
          (p : Result AppError (Unit {0}) × World S)
          → Same w p.1
          → Same w (
              world_of {A = Claims × Row} (
                let (r, u) = p in
                elim r [ ok a ↦ (ok (claims_of row at, row), u) | err e ↦ (err e, u) ]))
      checked_row (ok a, u) h = h
      checked_row (err e, u) h = h

  claims_from-Same : (row : Row) (w : World S) → Same w (claims_from env row w).1
  unfolding claims_from
  claims_from-Same row w =
      go (contains (status_of row) open_statuses) (as_utc env (get_str row "token_expires_at"))
    where
      go :
          (b : Bool) (at : Result AppError (Option ℕ))
          → Same w (
              world_of {A = Claims × Row} (
                (if b
                    then lift at >>= claims_at env row
                    else raise (consumed_token (status_of row)))
                  w))
      go true (ok at) = claims_at-Same row at w
      go true (err e) = (refl, refl)
      go false at = (refl, refl)

  found-Same : (o : Option Row) (w : World S) → Same w (found env o w).1
  unfolding found
  found-Same none w = (refl, refl)
  found-Same (some row) w = claims_from-Same row w

  pub claims-Same : (token : String) (w : World S) → Same w (claims env token w).1
  unfolding claims
  claims-Same token w = found-Same (outreach_row env w.store token) w

  -- The time of an expiry has not passed.
  abbrev pub IsCurrent : Option ℕ → World S → Type 0
  IsCurrent none w = Unit
  IsCurrent (some at) w = ltb at (env.clock w.asked) ≡ false

  check_expiry-IsCurrent :
      (at : Option ℕ) (w : World S) {a : Unit {0}} {u : World S}
      → check_expiry env at w ≡ (ok a, u)
      → IsCurrent at w
  unfolding check_expiry
  check_expiry-IsCurrent none w h = tt
  check_expiry-IsCurrent (some at) w {a} {u} h = go (ltb at (env.clock w.asked)) h
    where
      go :
          (b : Bool)
          → ◌≡◌ {A = Result AppError (Unit {0}) × World S}
              ((if b then raise expired_token else pure tt) (record w { asked = suc w.asked }))
              (ok a, u)
          → b ≡ false
      go true h' = cc
      go false h' = refl

  -- What the claims of a row rest on.
  abbrev pub Valid : Row → World S → Type 0
  Valid row w =
      (contains (status_of row) open_statuses ≡ true)
      × ((at : Option ℕ) × (as_utc env (get_str row "token_expires_at") ≡ ok at) × IsCurrent at w)

  claims_from_ok :
      (row : Row) (w : World S) {c : Claims} {r : Row} {u : World S}
      → claims_from env row w ≡ (ok (c, r), u)
      → (row ≡ r) × Valid row w
  unfolding claims_from claims_at
  claims_from_ok row w {c} {r} {u} h = go (contains (status_of row) open_statuses) refl h
    where
      expires : Option String
      expires = get_str row "token_expires_at"

      go :
          (b : Bool)
          → contains (status_of row) open_statuses ≡ b
          → ◌≡◌ {A = Result AppError (Claims × Row) × World S}
              ((if b
                  then lift (as_utc env expires) >>= claims_at env row
                  else raise (consumed_token (status_of row)))
                w)
              (ok (c, r), u)
          → (row ≡ r) × Valid row w
      go false e h' = cc
      go true e h' =
          let (at, v, h1, h2) = >>=-eq-ok (lift (as_utc env expires)) (claims_at env row) w h' in
          let (a, x, h3, h4) =
            >>=-eq-ok (check_expiry env at) (λ _. pure (claims_of row at, row)) v h2 in
          let same : v ≡ w = ap (λ p. p.1) (sym h1) in
          let pair : ◌≡◌ {A = Claims × Row} (claims_of row at, row) (c, r) =
            ok-injective (ap (λ p. p.0) h4) in
          (
            ap (λ p. p.1) pair,
            (e, (at, ap (λ p. p.0) h1, subst (IsCurrent at) same (check_expiry-IsCurrent at v h3))),
          )

  -- Claims that are given are those of the row of the token's hash, which is open and has not expired.
  pub claims_ok :
      (token : String) (w : World S) {c : Claims} {r : Row} {u : World S}
      → claims env token w ≡ (ok (c, r), u)
      → (outreach_row env w.store token ≡ some r) × Valid r w
  unfolding claims found
  claims_ok token w {c} {r} {u} h = go (outreach_row env w.store token) refl h
    where
      go :
          (o : Option Row)
          → outreach_row env w.store token ≡ o
          → found env o w ≡ (ok (c, r), u)
          → (outreach_row env w.store token ≡ some r) × Valid r w
      go none e h' = cc
      go (some row) e h' =
          let (same, valid) = claims_from_ok row w h' in
          (e ∙ ap some same, subst (λ x. Valid x w) same valid)
