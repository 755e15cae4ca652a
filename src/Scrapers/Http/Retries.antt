-- ===== src/Scrapers/Http/Retries.antt =====
-- scrapers/common/http.py: the retry loop against a description of it; what it returns is read off the
-- answers of the requests that it made.
use hacknation_hackathon.Base.{
  some-injective, ℕ, zero, suc, ◌+◌, ◌≤◌, String, ◌≡◌, refl, sym, ap, ◌∙◌, subst, ◌⊎◌, inl, inr,
  true, false, ◌||◌, Option, none, some, List, [], ◌∷◌, ◌++◌, arith, eqb, any, length,
  length-append, All, All-append, Bool-cases, Option-cases, ok, >>=-eq-ok, ok-injective,
}
use mathlib.Core.List.{append_assoc}
use hacknation_hackathon.Base.Dict.{get}
use hacknation_hackathon.Scrapers.Http.{
  Response, RequestSpec, Client, Net, TokenBucket, FetchedResponse, acquire, acquire_bucket,
  note_rate, rate_snapshot, is_retryable, is_final, wait_unanswered, wait_retryable, retry_delay,
  attempts, answered, request, is_surfaced, surface, send, with_world, not_modified_status,
  max_attempts,
}

-- The outside with the answers of its requests written down, the latest first.
abbrev pub Answers : Type 0
Answers = List (Option Response)

abbrev pub recorded : {S : Type 0} → Net S → Net (S × Answers)
recorded net = record {
  request = λ spec (s, log). let (r, t) = net.request spec s in (r, (t, r ∷ log));
  clock = λ (s, log). let (now, t) = net.clock s in (now, (t, log));
  sleep = λ seconds (s, log). (net.sleep seconds s, log);
  add = net.add;
  sub = net.sub;
  mul = net.mul;
  div = net.div;
  parse_int = net.parse_int;
  parse_float = net.parse_float;
  is_digit_text = net.is_digit_text;
}

module _ {S : Type 0} (net : Net S) where
  abbrev log_of : Client (S × Answers) → Answers
  log_of client = client.world.1

  log-acquire : (b : TokenBucket) (s : S × Answers) → (acquire (recorded net) b s).1.1 ≡ s.1
  unfolding acquire
  log-acquire b s = ground arith

  log-acquire_bucket :
      (name : String) (client : Client (S × Answers)) {ready : Client (S × Answers)}
      → acquire_bucket (recorded net) name client ≡ ok ready
      → log_of ready ≡ log_of client
  unfolding acquire_bucket
  log-acquire_bucket name client h = elim (Option-cases (get client.buckets name)) [
    | inl e ↦ absurd (let k = rw (acquire_bucket, e) at h in cc)
    | inr (b, e) ↦
        ap (λ c. log_of c) (sym (ok-injective (rw (acquire_bucket, e) at h)))
        ∙ log-acquire b client.world
  ]

  log-note_rate :
      (r : Response) (client : Client (S × Answers)) {noted : Client (S × Answers)}
      → note_rate (recorded net) r client ≡ ok noted
      → log_of noted ≡ log_of client
  unfolding note_rate
  log-note_rate r client h =
      let (snapshot, _, e) = >>=-eq-ok (rate_snapshot (recorded net) r) _ h in
      ap (λ c. log_of c) (sym (ok-injective e))

  log-wait_unanswered :
      (attempt : ℕ) (client : Client (S × Answers))
      → log_of (wait_unanswered (recorded net) attempt client) ≡ log_of client
  unfolding wait_unanswered
  log-wait_unanswered attempt client = ground arith

  log-wait_retryable :
      (r : Response) (attempt : ℕ) (client : Client (S × Answers)) {waited : Client (S × Answers)}
      → wait_retryable (recorded net) r attempt client ≡ ok waited
      → log_of waited ≡ log_of client
  unfolding wait_retryable
  log-wait_retryable r attempt client h =
      let (seconds, _, e) = >>=-eq-ok (retry_delay (recorded net) r attempt _) _ h in
      ap (λ c. log_of c) (sym (ok-injective e))

-- An answer after which the loop goes on.
abbrev pub Retried : Option Response → Type 0
Retried none = Unit
Retried (some r) = is_retryable r ≡ true

abbrev pub latest : Option Response → Answers → Option Response
latest last [] = last
latest last (a ∷ rest) = a

abbrev pub earlier : Answers → Answers
earlier [] = []
earlier (a ∷ rest) = rest

-- An answer that ends the loop.
abbrev pub Settles : Option Response → Type 0
Settles out = (r : Response) × (out ≡ some r) × (is_retryable r ≡ false)

-- The answers, the latest first, of a loop that had `left` rounds.
abbrev Loop : ℕ → Option Response → Option Response → Answers → Type 0
Loop left last out answers =
    (length answers ≤ left)
    × (out ≡ latest last answers)
    × All Retried (earlier answers)
    × ((length answers ≡ left) ⊎ Settles out)

Loop-first :
    (left : ℕ) (last out a : Option Response) (answers : Answers)
    → Retried a
    → Loop left a out answers
    → Loop (suc left) last out (answers ++ a ∷ [])
Loop-first left last out a [] ha (n, e, all, inl stop) =
    (omega arith, e, tt, inl (omega (arith, stop)))
Loop-first left last out a [] ha (n, e, all, inr stop) = (omega arith, e, tt, inr stop)
Loop-first left last out a (x ∷ rest) ha (n, e, all, stop) = (
  omega (arith, n, length-append rest (a ∷ [])),
  e,
  All-append Retried rest (a ∷ []) all (ha, tt),
  elim stop [ inl k ↦ inl (omega (arith, k, length-append rest (a ∷ []))) | inr k ↦ inr k ],
)

-- The rounds up to the maximum, and no more.
abbrev Rounds : ℕ → ℕ → Type 0
Rounds left attempt = left + attempt ≡ 6

module _ {S : Type 0} (net : Net S) (spec : RequestSpec) (bucket : String) where
  abbrev Ran : ℕ → Option Response → Answers → Option Response × Client (S × Answers) → Type 0
  Ran left last log r =
      (answers : Answers) × (log_of net r.1 ≡ answers ++ log) × Loop left last r.0 answers

  Ran-first :
      (left : ℕ) (last a : Option Response) (log log' : Answers)
      (r : Option Response × Client (S × Answers))
      → Retried a
      → log' ≡ a ∷ log
      → Ran left a log' r
      → Ran (suc left) last log r
  Ran-first left last a log log' r ha e (answers, el, loop) = (
    answers ++ a ∷ [],
    el ∙ ap (λ l. answers ++ l) e ∙ sym (append_assoc answers (a ∷ []) log),
    Loop-first left last r.0 a answers ha loop,
  )

  last_round :
      (a : Response) (left attempt : ℕ)
      → Rounds (suc left) attempt
      → is_final (recorded net) a attempt ≡ true
      → (1 ≡ suc left) ⊎ Settles (some a)
  last_round a left attempt k f = elim (Bool-cases (is_retryable a)) [
    | inr e ↦ inr (a, refl, e)
    | inl e ↦ inl (ground (arith, k, f, e))
  ]

  retried :
      (a : Response) (attempt : ℕ)
      → is_final (recorded net) a attempt ≡ false
      → is_retryable a ≡ true
  retried a attempt f = ground (arith, f)

  attempts-Ran :
      (left attempt : ℕ) (last : Option Response) (client : Client (S × Answers))
      {r : Option Response × Client (S × Answers)}
      → Rounds left attempt
      → attempts (recorded net) spec bucket left attempt last client ≡ ok r
      → Ran left last (log_of net client) r
  unfolding attempts
  attempts-Ran zero attempt last client k h =
      subst (Ran zero last (log_of net client)) (ok-injective h)
        ([], refl, (omega arith, refl, tt, inl refl))
  attempts-Ran (suc left) attempt last client {r} k h =
      let (ready, er, h1) = >>=-eq-ok (acquire_bucket (recorded net) bucket client) _ h in
      let log = log_of net client in
      let same = log-acquire_bucket net bucket client er in
      let sent = with_world (recorded net) ready ((recorded net).request spec ready.world).1 in
      elim (Option-cases (net.request spec ready.world.0).0) [
        | inl e ↦
            let waited = wait_unanswered (recorded net) attempt sent in
            Ran-first left last none log (log_of net waited) r tt
              (log-wait_unanswered net attempt sent
                ∙ ap (λ a. a ∷ ready.world.1) e
                ∙ ap (λ l. none ∷ l) same)
              (attempts-Ran left (suc attempt) none waited (omega (arith, k)) (rw e at h1))
        | inr (a, e) ↦
            let (noted, en, h2) = >>=-eq-ok (note_rate (recorded net) a sent) _ (rw e at h1) in
            let logged : noted.world.1 ≡ some a ∷ log =
              log-note_rate net a sent en
              ∙ ap (λ x. x ∷ ready.world.1) e
              ∙ ap (λ l. some a ∷ l) same in
            elim (Bool-cases (is_final (recorded net) a attempt)) [
              | inl f ↦
                  subst (Ran (suc left) last log) (ok-injective (rw f at h2))
                    (some a ∷ [], logged, (omega arith, refl, tt, last_round a left attempt k f))
              | inr f ↦
                  let (waited, ew, h3) =
                    >>=-eq-ok (wait_retryable (recorded net) a attempt noted) _ (rw f at h2) in
                  Ran-first left last (some a) log (log_of net waited) r (retried a attempt f)
                    (log-wait_retryable net a attempt noted {waited = waited} ew ∙ logged)
                    (attempts-Ran left (suc attempt) (some a) waited (omega (arith, k)) h3)
            ]
      ]

  answered-some :
      (out : Option Response × Client (S × Answers)) {r : Response} {client' : Client (S × Answers)}
      → answered (recorded net) spec.url out ≡ ok (r, client')
      → out ≡ (some r, client')
  unfolding answered
  answered-some (some r, c) h =
      ap (λ (p : Response × Client (S × Answers)). (some p.0, p.1)) (ok-injective h)
  answered-some (none, c) h = cc

  some_answer :
      (r : Response) (client' : Client (S × Answers)) (log answers : Answers)
      → client'.world.1 ≡ answers ++ log
      → Loop 5 none (some r) answers
      → (rest : Answers) × (client'.world.1 ≡ some r ∷ (rest ++ log))
        × (length rest ≤ 4)
        × All Retried rest
        × ((length rest ≡ 4) ⊎ (is_retryable r ≡ false))
  some_answer r client' log [] el (n, e, all, stop) =
      absurd (let k : ◌≡◌ {A = Option Response} (some r) none = e in cc)
  some_answer r client' log (x ∷ rest) el (n, e, all, stop) = (
    rest,
    el ∙ ap (λ y. y ∷ (rest ++ log)) (sym e),
    omega (arith, n),
    all,
    elim stop [
      | inl k ↦ inl (omega (arith, k))
      | inr (q, eq, final) ↦
          inr (subst (λ x. is_retryable x ≡ false) (sym (some-injective eq)) final)
    ],
  )

  -- Where the answers of the requests are written down, a call of _request that returns made one
  -- to five requests; all but the last failed or got a retryable answer, the answer of the last is
  -- the one returned, and it is not retryable unless five were made.
  pub request_retries :
      (client : Client (S × Answers)) {r : Response} {client' : Client (S × Answers)}
      → request (recorded net) spec bucket client ≡ ok (r, client')
      → (rest : Answers) × (client'.world.1 ≡ some r ∷ (rest ++ client.world.1))
        × (length rest ≤ 4)
        × All Retried rest
        × ((length rest ≡ 4) ⊎ (is_retryable r ≡ false))
  unfolding request
  request_retries client {r} {client'} h =
      let (out, ea, e) =
        >>=-eq-ok (attempts (recorded net) spec bucket max_attempts 1 none client)
          (answered (recorded net) spec.url) h in
      let (answers, el, loop) =
        subst (Ran 5 none (log_of net client)) (answered-some out e)
          (attempts-Ran 5 1 none client (omega arith) ea) in
      some_answer r client' (log_of net client) answers el loop

  surface-ok :
      (r : Response) (url : String) (allow : List ℕ) {f : FetchedResponse}
      → surface (recorded net) r url allow ≡ ok f
      → (is_surfaced (recorded net) allow r ≡ true)
        × (f.status ≡ r.status_code)
        × (f.body ≡ r.content)
  unfolding surface
  surface-ok r url allow h = elim (Bool-cases (is_surfaced (recorded net) allow r)) [
    | inr e ↦ absurd (let k = rw (surface, e) at h in cc)
    | inl e ↦
        let same = ok-injective (rw (surface, e) at h) in
        (
          e,
          ap (λ (g : FetchedResponse). g.status) (sym same),
          ap (λ (g : FetchedResponse). g.body) (sym same),
        )
  ]

  -- Where the answers of the requests are written down, what get and post_json return is the
  -- status and the body of the last of at most five answers, and that answer is a success, a 304
  -- (for a POST too), or of a status that the caller allows.
  pub send_surfaces :
      (allow : List ℕ) (client : Client (S × Answers)) {f : FetchedResponse}
      {client' : Client (S × Answers)}
      → send (recorded net) spec bucket allow client ≡ ok (f, client')
      → (r : Response) × (rest : Answers) × (client'.world.1 ≡ some r ∷ (rest ++ client.world.1))
        × (length rest ≤ 4)
        × (f.status ≡ r.status_code)
        × (f.body ≡ r.content)
        × ((r.is_success || eqb r.status_code not_modified_status)
              || any (λ s. eqb s r.status_code) allow
            ≡ true)
  unfolding send
  send_surfaces allow client {f} {client'} h =
      let (got, eg, h1) = >>=-eq-ok (request (recorded net) spec bucket client) _ h in
      let (fetched, ef, h2) = >>=-eq-ok (surface (recorded net) got.0 spec.url allow) _ h1 in
      let same = ok-injective h2 in
      let shown = surface-ok got.0 spec.url allow ef in
      let (rest, el, n, all, stop) = request_retries client eg in
      (
        got.0,
        rest,
        ap (λ (p : FetchedResponse × Client (S × Answers)). p.1.world.1) (sym same) ∙ el,
        n,
        ap (λ (p : FetchedResponse × Client (S × Answers)). p.0.status) (sym same) ∙ shown.1,
        ap (λ (p : FetchedResponse × Client (S × Answers)). p.0.body) (sym same) ∙ shown.2,
        shown.0,
      )
