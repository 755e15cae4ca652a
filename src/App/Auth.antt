-- ===== src/App/Auth.antt =====
-- app/auth.py: the password, the bearer header and the session tokens of the gate.
use hacknation_hackathon.Base.{
  String, Bool, true, false, Option, none, some, List, [], ◌∷◌, ◌==◌, contains, Result, ok, err,
  if◌then◌else◌, ◌≡◌, ◌||◌, ◌&&◌, arith, eq_iff, Bool-cases, inl, inr, ap, refl, ◌∙◌,
}
use hacknation_hackathon.Base.Text.{is_ascii, starts_with, drop_text}

abbrev pub password_env : String
password_env = "APP_PASSWORD"

abbrev pub fixtures_password : String
fixtures_password = "demo"

abbrev pub bearer_prefix : String
bearer_prefix = "bearer "

pub data ConfigError : Type 0 where
  missing_config : List String → ConfigError

-- `configured` is what the environment variable holds.
unfoldable pub resolve_password : Option String → Bool → Result ConfigError String
resolve_password none fixtures =
    if fixtures then ok fixtures_password else err (missing_config (password_env ∷ []))
resolve_password (some configured) fixtures =
    if configured == ""
    then (if fixtures then ok fixtures_password else err (missing_config (password_env ∷ [])))
    else ok configured

-- `text or None`
abbrev non_empty : String → Option String
non_empty text = if text == "" then none else some text

-- `str.lower` and `str.strip` are the interpreter's.
module _ (lower strip : String → String) where
  unfoldable pub bearer_token : Option String → Option String
  bearer_token none = none
  bearer_token (some authorization) =
      if starts_with (lower authorization) bearer_prefix
      then non_empty (strip (drop_text bearer_prefix authorization))
      else none

-- `SessionRegistry`
pub record Sessions : Type 0 where
  pub password : String
  pub tokens : List String

abbrev pub new_sessions : String → Sessions
new_sessions password = record { password = password; tokens = [] }

-- `tokens.add(token)`
abbrev add_token : String → List String → List String
add_token token tokens = if contains token tokens then tokens else token ∷ tokens

-- The TypeError of `secrets.compare_digest`, which takes no text that is not ASCII.
pub data DigestError : Type 0 where
  not_ascii : DigestError

unfoldable pub compare_digest : String → String → Result DigestError Bool
compare_digest a b = if is_ascii a && is_ascii b then ok (a == b) else err not_ascii

abbrev mint :
    String → Sessions → Result DigestError Bool → Result DigestError (Option String) × Sessions
mint minted sessions (ok true) =
    (ok (some minted), record sessions { tokens = add_token minted sessions.tokens })
mint minted sessions (ok false) = (ok none, sessions)
mint minted sessions (err e) = (err e, sessions)

-- `minted` is what `secrets.token_hex` gives.
unfoldable pub login : String → String → Sessions → Result DigestError (Option String) × Sessions
unfolding compare_digest
login minted password sessions = mint minted sessions (compare_digest password sessions.password)

unfoldable pub is_valid : Option String → Sessions → Bool
is_valid none sessions = false
is_valid (some token) sessions = contains token sessions.tokens

-- A sequence of logins with what each mints and submits.
abbrev pub logins : List (String × String) → Sessions → Sessions
logins [] sessions = sessions
logins ((minted, password) ∷ rest) sessions = logins rest (login minted password sessions).1

-- The tokens that the logins with the right password minted, if it is ASCII.
abbrev pub granted : String → List (String × String) → List String
granted password [] = []
granted password ((minted, submitted) ∷ rest) =
    let later = granted password rest in
    if submitted == password && is_ascii password then minted ∷ later else later

password-mint :
    (minted : String) (sessions : Sessions) (r : Result DigestError Bool)
    → (mint minted sessions r).1.password ≡ sessions.password
password-mint minted sessions (ok true) = refl
password-mint minted sessions (ok false) = refl
password-mint minted sessions (err e) = refl

password-login :
    (minted password : String) (sessions : Sessions)
    → (login minted password sessions).1.password ≡ sessions.password
unfolding login
password-login minted password sessions =
    password-mint minted sessions (compare_digest password sessions.password)

is_match : Result DigestError Bool → Bool
is_match (ok b) = b
is_match (err e) = false

contains-mint :
    (t minted : String) (sessions : Sessions) (r : Result DigestError Bool)
    → contains t (mint minted sessions r).1.tokens
      ≡ (contains t sessions.tokens || (is_match r && minted == t))
unfolding is_match
contains-mint t minted sessions (ok true) = elim (Bool-cases (contains minted sessions.tokens)) [
  | inl f ↦ rw f (ground (arith, eq_iff minted t))
  | inr f ↦ rw f (ground (arith, eq_iff minted t))
]
contains-mint t minted sessions (ok false) = ground arith
contains-mint t minted sessions (err e) = ground arith

both : (x : Bool) → is_match (if x && x then ok true else err not_ascii) ≡ (true && x)
unfolding is_match
both true = refl
both false = refl

neither : (x : Bool) → is_match (if x then ok false else err not_ascii) ≡ false
unfolding is_match
neither true = refl
neither false = refl

compare_digest_lem : (a b : String) → is_match (compare_digest a b) ≡ (a == b && is_ascii b)
unfolding compare_digest is_match
compare_digest_lem a b = elim (Bool-cases (a == b)) [
  | inl e ↦ let same : a ≡ b = ground (arith, eq_iff a b) in rw (e, same) (both (is_ascii b))
  | inr e ↦ rw e (neither (is_ascii a && is_ascii b))
]

contains-login :
    (t minted password : String) (sessions : Sessions)
    → contains t (login minted password sessions).1.tokens ≡ (
        contains t sessions.tokens
        || ((password == sessions.password && is_ascii sessions.password) && minted == t))
unfolding login
contains-login t minted password sessions =
    contains-mint t minted sessions (compare_digest password sessions.password)
    ∙ ap (λ b. contains t sessions.tokens || (b && minted == t))
        (compare_digest_lem password sessions.password)

-- A token opens the gate after any sequence of logins exactly if it opened it before or if a login
-- with the right password minted it and that password is ASCII.
pub is_valid-logins :
    (t : String) (attempts : List (String × String)) (sessions : Sessions)
    → is_valid (some t) (logins attempts sessions)
      ≡ (contains t sessions.tokens || contains t (granted sessions.password attempts))
unfolding is_valid
is_valid-logins t [] sessions = ground arith
is_valid-logins t ((minted, password) ∷ rest) sessions =
    let next = (login minted password sessions).1 in
    is_valid-logins t rest next
    ∙ rw (contains-login t minted password sessions, password-login minted password sessions)
        (elim (Bool-cases (password == sessions.password && is_ascii sessions.password)) [
          | inl e ↦ rw e (ground arith)
          | inr e ↦ rw e (ground arith)
        ])
