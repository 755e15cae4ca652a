-- ===== src/Scrapers/Http.antt =====
-- scrapers/common/http.py: the rate-limited client and its retry loop. httpx, the clock and the sleep are
-- arguments, and so is the arithmetic of doubles; what the calls do to the outside is the state `S`.
pub mod Retries
mod Tests
use hacknation_hackathon.Base.{
  ℕ, zero, suc, ◌+◌, ◌-◌, ◌*◌, ◌^◌, String, Bool, true, false, not, ◌&&◌, ◌||◌, Option, none, some,
  List, [], ◌∷◌, ◌++◌, ◌==◌, eqb, ltb, any, or_else, Result, ok, err, ◌>>=◌, if◌then◌else◌,
}
use hacknation_hackathon.Base.Dict.{Dict, get, insert}
use hacknation_hackathon.Base.Float.{Float, float_lt}
use hacknation_hackathon.Base.Int.{ℤ}

-- RETRYABLE_STATUSES, SECONDARY_LIMIT_STATUS, NOT_MODIFIED_STATUS and MAX_ATTEMPTS
abbrev pub retryable_statuses : List ℕ
retryable_statuses = 429 ∷ 500 ∷ 502 ∷ 503 ∷ 504 ∷ []

abbrev pub secondary_limit_status : ℕ
secondary_limit_status = 403

abbrev pub not_modified_status : ℕ
not_modified_status = 304

abbrev pub max_attempts : ℕ
max_attempts = 5

-- 2.0 ** n, a power of two that a double holds exactly (n below 1024)
abbrev pub two_power : ℕ → Float
two_power n = record { bits = (1023 + n) * 2 ^ 52 }

-- BACKOFF_CAP_SECONDS (60.0), and 1.0, which is also MIN_LIMIT_WAIT_SECONDS
abbrev pub backoff_cap_seconds : Float
backoff_cap_seconds = record { bits = 0x404E000000000000 }

abbrev pub one : Float
one = two_power 0

-- `min(x, y)` and `max(x, y)`: the first unless the second is strictly better.
abbrev pub float_min : Float → Float → Float
float_min x y = if float_lt y x then y else x

abbrev pub float_max : Float → Float → Float
float_max x y = if float_lt x y then y else x

-- What the client reads of httpx.Response: the status, `is_success`, a header by its name, and all of them.
pub record Response : Type 0 where
  pub status_code : ℕ
  pub is_success : Bool
  pub header : String → Option String
  pub headers : Dict String
  pub content : String

pub record RequestSpec : Type 0 where
  pub method : String
  pub url : String
  pub params : Option (Dict String)
  pub headers : Option (Dict String)
  pub payload : Option String

pub record RateSnapshot : Type 0 where
  pub resource : String
  pub limit : ℤ
  pub remaining : ℤ
  pub reset_epoch : ℤ

pub record FetchedResponse : Type 0 where
  pub status : ℕ
  pub body : String
  pub etag : Option String
  pub headers : Dict String

pub record TokenBucket : Type 0 where
  pub rate : Float
  pub capacity : Float
  pub tokens : Float
  pub last : Float

-- httpx's `request` (`none` is a TransportError), the clock and the sleep, and the interpreter's numbers:
-- `parse_int` and `parse_float` are `int` and `float` of a text, `none` for a ValueError.
pub record Net (S : Type 0) : Type 0 where
  pub request : RequestSpec → S → Option Response × S
  pub clock : S → Float × S
  pub sleep : Float → S → S
  pub add : Float → Float → Float
  pub sub : Float → Float → Float
  pub mul : Float → Float → Float
  pub div : Float → Float → Float
  pub parse_int : String → Option ℤ
  pub parse_float : String → Option Float
  pub is_digit_text : String → Bool

-- HttpStatusError, the KeyError of an unknown bucket and the ValueError of a header that is no number.
pub data HttpError : Type 0 where
  http_status : ℕ → String → HttpError
  unknown_bucket : String → HttpError
  bad_number : HttpError

-- The client's own state, and the outside.
pub record Client (S : Type 0) : Type 0 where
  pub buckets : Dict TokenBucket
  pub headroom : Dict RateSnapshot
  pub world : S

unfoldable pub backoff_delay : ℕ → Float
backoff_delay attempt = float_min backoff_cap_seconds (two_power (attempt - 1))

abbrev pub header_is : String → Option String → Bool
header_is text (some s) = s == text
header_is text none = false

abbrev pub is_secondary_limit : Response → Bool
is_secondary_limit r =
    eqb r.status_code secondary_limit_status && header_is "0" (r.header "x-ratelimit-remaining")

unfoldable pub is_retryable : Response → Bool
is_retryable r = any (λ s. eqb s r.status_code) retryable_statuses || is_secondary_limit r

module _ {S : Type 0} (net : Net S) where
  -- `text is not None and text.isdigit()`
  abbrev digits : Option String → Option String
  digits (some s) = if net.is_digit_text s then some s else none
  digits none = none

  -- `float` of the digits of a header, with what is made of the number
  float_of : String → (Float → Float) → Result HttpError Float
  float_of text f = elim (net.parse_float text) [ some x ↦ ok (f x) | none ↦ err bad_number ]

  unfoldable pub retry_delay : Response → ℕ → Float → Result HttpError Float
  unfolding backoff_delay float_of
  retry_delay r attempt now = elim (digits (r.header "Retry-After")) [
    | some s ↦ float_of s (λ x. float_max x one)
    | none ↦ elim (digits (r.header "x-ratelimit-reset")) [
      | none ↦ ok (backoff_delay attempt)
      | some reset ↦
          if is_secondary_limit r
          then float_of reset (λ x. float_max (net.sub x now) one)
          else ok (backoff_delay attempt)
    ]
  ]

  three_ints : String → Option ℤ → Option ℤ → Option ℤ → Result HttpError (Option RateSnapshot)
  three_ints resource (some l) (some m) (some n) =
      ok (some (record { resource = resource; limit = l; remaining = m; reset_epoch = n }))
  three_ints resource (some l) (some m) none = err bad_number
  three_ints resource (some l) none n = err bad_number
  three_ints resource none m n = err bad_number

  rate_of :
      String
      → Option String
      → Option String
      → Option String
      → Result HttpError (Option RateSnapshot)
  unfolding three_ints
  rate_of resource (some limit) (some remaining) (some reset) =
      three_ints resource (net.parse_int limit) (net.parse_int remaining) (net.parse_int reset)
  rate_of resource (some limit) (some remaining) none = ok none
  rate_of resource (some limit) none reset = ok none
  rate_of resource none remaining reset = ok none

  unfoldable pub rate_snapshot : Response → Result HttpError (Option RateSnapshot)
  unfolding rate_of
  rate_snapshot r =
      rate_of (or_else (r.header "x-ratelimit-resource") "default") (r.header "x-ratelimit-limit")
        (r.header "x-ratelimit-remaining") (r.header "x-ratelimit-reset")

  -- `_refill`: the bucket and the outside after the clock is read.
  abbrev refill : TokenBucket → S → TokenBucket × S
  refill b s =
      let (now, s') = net.clock s in
      (
        record b {
          tokens = float_min b.capacity (net.add b.tokens (net.mul (net.sub now b.last) b.rate));
          last = now;
        },
        s',
      )

  abbrev take_token : TokenBucket → TokenBucket
  take_token b = record b { tokens = net.sub b.tokens one }

  unfoldable pub acquire : TokenBucket → S → TokenBucket × S
  acquire bucket s =
      let (b, s') = refill bucket s in
      if float_lt b.tokens one
      then (let (c, t) = refill b (net.sleep (net.div (net.sub one b.tokens) b.rate) s') in
          (take_token c, t))
      else (take_token b, s')

  abbrev put_snapshot : Option RateSnapshot → Dict RateSnapshot → Dict RateSnapshot
  put_snapshot (some snapshot) headroom = insert snapshot.resource snapshot headroom
  put_snapshot none headroom = headroom

  -- `self._buckets[bucket].acquire()`
  unfoldable pub acquire_bucket : String → Client S → Result HttpError (Client S)
  unfolding acquire
  acquire_bucket name client = elim (get client.buckets name) [
    | none ↦ err (unknown_bucket name)
    | some b ↦ ok (
        let (taken, s) = acquire b client.world in
        record client { buckets = insert name taken client.buckets; world = s })
  ]

  unfoldable pub note_rate : Response → Client S → Result HttpError (Client S)
  unfolding rate_snapshot
  note_rate r client = do
    snapshot ← rate_snapshot r
    ok (record client { headroom = put_snapshot snapshot client.headroom })

  abbrev pub with_world : Client S → S → Client S
  with_world client s = record client { world = s }

  abbrev pub sleep_for : Float → Client S → Client S
  sleep_for seconds client = with_world client (net.sleep seconds client.world)

  -- `if attempt < MAX_ATTEMPTS: self._timing.sleep(backoff_delay(attempt))`
  unfoldable pub wait_unanswered : ℕ → Client S → Client S
  unfolding backoff_delay
  wait_unanswered attempt client =
      if ltb attempt max_attempts then sleep_for (backoff_delay attempt) client else client

  unfoldable pub wait_retryable : Response → ℕ → Client S → Result HttpError (Client S)
  unfolding retry_delay
  wait_retryable r attempt client =
      let (now, s) = net.clock client.world in
      do seconds ← retry_delay r attempt now; ok (sleep_for seconds (with_world client s))

  abbrev pub is_final : Response → ℕ → Bool
  is_final r attempt = not (is_retryable r) || eqb attempt max_attempts

  -- The rounds of the loop of `_request` that are left, from `attempt` on; `last` is the variable `response`.
  unfoldable pub attempts :
      RequestSpec
      → String
      → ℕ
      → ℕ
      → Option Response
      → Client S
      → Result HttpError (Option Response × Client S)
  unfolding acquire_bucket note_rate wait_unanswered wait_retryable is_retryable
  attempts spec bucket zero attempt last client = ok (last, client)
  attempts spec bucket (suc left) attempt last client = do
    ready ← acquire_bucket bucket client
    elim (net.request spec ready.world).0 as (λ _. Result HttpError (Option Response × Client S)) [
      | none ↦
          attempts spec bucket left (suc attempt) none
            (wait_unanswered attempt (with_world ready (net.request spec ready.world).1))
      | some r ↦ do
        noted ← note_rate r (with_world ready (net.request spec ready.world).1)
        elim (is_final r attempt) as (λ _. Result HttpError (Option Response × Client S)) [
          | true ↦ ok (some r, noted)
          | false ↦ do
            waited ← wait_retryable r attempt noted
            attempts spec bucket left (suc attempt) (some r) waited
        ]
    ]

  answered : String → Option Response × Client S → Result HttpError (Response × Client S)
  answered url (some r, client) = ok (r, client)
  answered url (none, client) = err (http_status 0 url)

  -- `_request`
  unfoldable pub request : RequestSpec → String → Client S → Result HttpError (Response × Client S)
  unfolding attempts answered
  request spec bucket client = attempts spec bucket max_attempts 1 none client >>= answered spec.url

  abbrev pub is_surfaced : List ℕ → Response → Bool
  is_surfaced allow r =
      (r.is_success || eqb r.status_code not_modified_status)
      || any (λ s. eqb s r.status_code) allow

  unfoldable pub surface : Response → String → List ℕ → Result HttpError FetchedResponse
  surface r url allow =
      if is_surfaced allow r
      then ok (record {
        status = r.status_code;
        body = r.content;
        etag = r.header "ETag";
        headers = r.headers;
      })
      else err (http_status r.status_code url)

  abbrev optional_header : String → Option String → Dict String
  optional_header name (some v) = (name, v) ∷ []
  optional_header name none = []

  -- `headers or None`
  abbrev headers_or_none : Dict String → Option (Dict String)
  headers_or_none [] = none
  headers_or_none (h ∷ hs) = some (h ∷ hs)

  abbrev pub get_spec : String → Option (Dict String) → Option String → Option String → RequestSpec
  get_spec url params accept etag = record {
    method = "GET";
    url = url;
    params = params;
    headers =
        headers_or_none (optional_header "Accept" accept ++ optional_header "If-None-Match" etag);
    payload = none;
  }

  abbrev pub post_spec : String → Option (Dict String) → String → RequestSpec
  post_spec url params payload = record {
    method = "POST";
    url = url;
    params = params;
    headers = none;
    payload = some payload;
  }

  -- What `get` and `post_json` do with their request.
  unfoldable pub send :
      RequestSpec → String → List ℕ → Client S → Result HttpError (FetchedResponse × Client S)
  unfolding request surface
  send spec bucket allow client = do
    got ← request spec bucket client
    fetched ← surface got.0 spec.url allow
    ok (fetched, got.1)

  unfoldable pub http_get :
      String
      → String
      → Option (Dict String)
      → Option String
      → Option String
      → List ℕ
      → Client S
      → Result HttpError (FetchedResponse × Client S)
  unfolding send
  http_get url bucket params accept etag allow client =
      send (get_spec url params accept etag) bucket allow client

  unfoldable pub post_json :
      String
      → String
      → String
      → Option (Dict String)
      → List ℕ
      → Client S
      → Result HttpError (FetchedResponse × Client S)
  unfolding send
  post_json url payload bucket params allow client =
      send (post_spec url params payload) bucket allow client
