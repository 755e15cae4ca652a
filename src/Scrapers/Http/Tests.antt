-- ===== src/Scrapers/Http/Tests.antt =====
-- The retry loop on a server that is busy once.
use hacknation_hackathon.Base.{
  ℕ, suc, ◌≤◌, true, false, ◌≡◌, refl, ◌⊎◌, some, none, [], ◌∷◌, ◌++◌, eqb, any, ◌||◌, length, All,
  if◌then◌else◌,
}
use hacknation_hackathon.Base.Dict.{get, insert}
use hacknation_hackathon.Base.Float.{float_lt}
use hacknation_hackathon.Base.Int.{pos}
use hacknation_hackathon.Scrapers.Http.{
  Response, RequestSpec, FetchedResponse, TokenBucket, Net, Client, two_power, request, send,
  get_spec, is_retryable, not_modified_status,
}
use hacknation_hackathon.Scrapers.Http.Retries.{Answers, Retried, request_retries, send_surfaces}

abbrev busy : Response
busy = record {
  status_code = 503;
  is_success = false;
  header = λ name. none;
  headers = [];
  content = "";
}

abbrev fine : Response
fine = record {
  status_code = 200;
  is_success = true;
  header = λ name. none;
  headers = [];
  content = "{}";
}

-- The first request finds the server busy; a double is left as it is.
abbrev net : Net ℕ
net = record {
  request = λ spec n. (if eqb n 0 then some busy else some fine, suc n);
  clock = λ n. (two_power 3, n);
  sleep = λ seconds n. n;
  add = λ x y. x;
  sub = λ x y. x;
  mul = λ x y. x;
  div = λ x y. x;
  parse_int = λ text. some (pos 0);
  parse_float = λ text. some (two_power 0);
  is_digit_text = λ text. false;
}

abbrev bucket : TokenBucket
bucket = record {
  rate = two_power 0;
  capacity = two_power 1;
  tokens = two_power 1;
  last = two_power 3;
}

abbrev client_at : ℕ → Answers → Client (ℕ × Answers)
client_at n log = record { buckets = ("core", bucket) ∷ []; headroom = []; world = (n, log) }

abbrev spec : RequestSpec
spec = get_spec net "https://api.example.org" none none none

request_retries_example :
    (rest : Answers) × ((some fine ∷ some busy ∷ []) ≡ some fine ∷ (rest ++ []))
    × (length rest ≤ 4)
    × All Retried rest
    × ((length rest ≡ 4) ⊎ (is_retryable fine ≡ false))
unfolding request get insert float_lt
request_retries_example =
    request_retries net spec "core" (client_at 0 []) {r = fine}
      {client' = client_at 2 (some fine ∷ some busy ∷ [])} refl

abbrev fetched : FetchedResponse
fetched = record { status = 200; body = "{}"; etag = none; headers = [] }

send_surfaces_example :
    (r : Response) × (rest : Answers) × ((some fine ∷ some busy ∷ []) ≡ some r ∷ (rest ++ []))
    × (length rest ≤ 4)
    × (200 ≡ r.status_code)
    × ("{}" ≡ r.content)
    × ((r.is_success || eqb r.status_code not_modified_status) || any (λ s. eqb s r.status_code) []
        ≡ true)
unfolding send get insert float_lt
send_surfaces_example =
    send_surfaces net spec "core" [] (client_at 0 []) {f = fetched}
      {client' = client_at 2 (some fine ∷ some busy ∷ [])} refl
