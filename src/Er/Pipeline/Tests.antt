-- ===== src/Er/Pipeline/Tests.antt =====
-- The matching stages, the adjudication and the survivorship run on small inputs.
use hacknation_hackathon.Base.{
  ℕ, suc, String, true, false, ◌≡◌, refl, some, none, List, [], ◌∷◌, ◌++◌, map, All, ok, eqb,
}
use hacknation_hackathon.Base.Dict.{Dict, get}
use hacknation_hackathon.Base.Float.{Float}
use hacknation_hackathon.Json.{str, Row, json_list}
use hacknation_hackathon.Tools.Norm.{Unicode}
use hacknation_hackathon.Er.Models.{PsrView, psr_view, ScoredPair}
use hacknation_hackathon.Er.Allocator.{Allocator}
use hacknation_hackathon.Er.Graph.{union_components, union_components-Components}
use hacknation_hackathon.Er.Crosslinks.{PairDict}
use hacknation_hackathon.Er.Rules.{Scoring, deterministic_matches, hacknation_matches}
use hacknation_hackathon.Er.Rules.Reasons.{
  Grounded, Proposed, passes_d8, deterministic_matches-Grounded, hacknation_matches-Proposed,
}
use hacknation_hackathon.Er.Models.{det_hn_repo}
use hacknation_hackathon.Er.Adjudicate.{
  Services, LlmResponse, Adjudication, Evidence, adjudicate_pairs, settled_pair_ids, adjudication,
}
use hacknation_hackathon.Er.Adjudicate.Settled.{
  key_of, adjudicated, IsSettled, open_pairs, adjudicate_pairs_lem, adjudicate_pairs_once,
}
use hacknation_hackathon.Er.Pipeline.Stages.{ErInputs, RunDeps, Stages}
use hacknation_hackathon.Er.Connections.{Calendar}
use hacknation_hackathon.Er.Survivorship.{Numbers}
use hacknation_hackathon.Er.Pipeline.Run.{IsSafe, run_pipeline, run_pipeline-IsSafe}
use mathlib.Core.List.{Memᴰ}

-- Text functions that leave a text as it is, and one double for every similarity.
abbrev unicode : Unicode
unicode = record {
  strip = λ s. s;
  lower = λ s. s;
  nfkd = λ s. s;
  is_combining = λ c. false;
  is_space = λ c. eqb c 32;
}

abbrev high : Float
high = record { bits = 0x3fef0a3d70a3d70a }

abbrev scoring : Scoring
scoring = record { unicode = unicode; jaro_winkler = λ a b. high; round2 = λ x. x }

-- A client that always finds a match.
abbrev response : LlmResponse
response = record {
  text = "";
  parsed = some (
      ("verdict", str "match")
      ∷ ("rationale", str "same address")
      ∷ ("fields_supporting", json_list (str "email" ∷ []))
      ∷ []);
  model = "m1";
}

abbrev services : Services String ℕ
services = record {
  complete = λ prompt s. (ok response, suc s);
  clock = λ s. (7, s);
  uuid5 = λ s. s;
  dumps = λ row. "{}";
  loads = λ text. none;
  show_value = λ v. "None";
}

abbrev allocator : Allocator ℕ
allocator cluster s = ("person-1", suc s)

abbrev deps : RunDeps String ℕ
deps = record {
  libraries = record { uuid5 = λ s. s; connected_components = union_components; round4 = λ x. x };
  scoring = scoring;
  services = services;
  allocator = allocator;
  predict = λ train rows. [];
  round6 = λ x. x;
  of_int = λ n. high;
  show_int = λ n. "0";
  isoformat = λ t. "2026-01-01";
  pipeline_version = "er-1";
  deterministic_splink = true;
}

abbrev psr_row : String → String → String → Row
psr_row id source email =
    ("source_record_id", str id)
    ∷ ("source", str source)
    ∷ ("email_norms", json_list (str email ∷ []))
    ∷ []

abbrev psr_rows : List Row
psr_rows =
    psr_row "a1" "github" "ada@example.org" ∷ psr_row "b1" "zefix_officer" "ada@example.org" ∷ []

abbrev inputs : ErInputs
inputs = record {
  github_users = [];
  person_rows = [];
  hacknation_projects = [];
  paper_code_links = [];
  projects = [];
  publications = [];
  companies = [];
  contributions = [];
  authorships = [];
  officers = [];
  psr_rows = psr_rows;
  link_rows = [];
  adjudication_rows = [];
}

abbrev all_stages : Stages
all_stages = record { deterministic = true; splink_pass = true; adjudication = true }

abbrev numbers : Numbers
numbers = record {
  unicode = unicode;
  add = λ x y. x;
  mul = λ x n. x;
  round2 = λ x. x;
  of_int = λ n. high;
  show_int = λ n. "0";
  isoformat = λ t. "2026-01-01";
  fromisoformat = λ s. some 3;
}

abbrev calendar : Calendar
calendar = record {
  parse_date = λ text. some 20000;
  date_of_time = λ t. 20010;
  halved = λ days. high;
  add = λ x y. y;
  round4 = λ x. x;
}

run_pipeline-IsSafe_example :
    IsSafe deps numbers calendar inputs [] all_stages
      (run_pipeline deps numbers calendar inputs [] all_stages true 0)
run_pipeline-IsSafe_example =
    run_pipeline-IsSafe deps numbers calendar inputs [] all_stages union_components-Components true
      0

abbrev view_a : PsrView
view_a = record (psr_view (λ t. "") []) {
  source_record_id = "a1";
  source = "github";
  name_norm = some "ada l";
  email_norms = "ada@example.org" ∷ [];
}

abbrev view_b : PsrView
view_b = record (psr_view (λ t. "") []) {
  source_record_id = "b1";
  source = "zefix_officer";
  name_norm = some "ada l";
  email_norms = "ada@example.org" ∷ [];
}

abbrev views : List PsrView
views = view_a ∷ view_b ∷ []

abbrev by_id : Dict PsrView
by_id = ("a1", view_a) ∷ ("b1", view_b) ∷ []

abbrev candidates : PairDict
candidates = (("a1", "b1"), "github.com/x/y") ∷ []

deterministic_matches-Grounded_example :
    All (Grounded scoring views candidates) (deterministic_matches scoring views candidates)
deterministic_matches-Grounded_example = deterministic_matches-Grounded scoring views candidates

hacknation_matches-Proposed_example :
    All
      (Proposed scoring det_hn_repo (passes_d8 scoring) by_id (λ c. Memᴰ c candidates))
      (hacknation_matches scoring by_id candidates)
hacknation_matches-Proposed_example = hacknation_matches-Proposed scoring by_id candidates

abbrev pair : ScoredPair
pair = record { left = "a1"; right = "b1"; probability = high; comparison = [] }

abbrev evidence : Evidence
evidence = record {
  verdict = "match";
  rationale = "same address";
  fields_supporting = "email" ∷ [];
}

abbrev settled : List Adjudication
settled = adjudication services "adjudication:a1|b1" pair evidence "m1" "er-1" 7 ∷ []

adjudicate_pairs_lem_example :
    (map (adjudicated services) settled
      ≡ map (key_of services) (open_pairs services by_id [] "er-1" (pair ∷ [])))
    × All (IsSettled services) settled
unfolding adjudicate_pairs get
adjudicate_pairs_lem_example = adjudicate_pairs_lem services by_id [] "er-1" (pair ∷ []) 0 refl

adjudicate_pairs_once_example :
    adjudicate_pairs services by_id
      (settled_pair_ids services ([] ++ map (λ a. a.row) settled))
      "er-1"
      (pair ∷ [])
      5
    ≡ ok ([], 5)
unfolding adjudicate_pairs get settled_pair_ids
adjudicate_pairs_once_example = adjudicate_pairs_once services by_id "er-1" [] (pair ∷ []) 0 5 refl
