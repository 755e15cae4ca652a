-- ===== src/App/Tests.antt =====
-- The app layer run on a small store: a list of rows for each table, the newest first.
use hacknation_hackathon.Base.{
  String, true, ◌≡◌, refl, ◌||◌, none, some, List, [], ◌∷◌, ◌++◌, contains, or_else, ◌==◌,
  if◌then◌else◌, ok,
}
use hacknation_hackathon.Base.Dict.{Dict, get, insert}
use hacknation_hackathon.Base.Sort.{sort_by}
use hacknation_hackathon.App.Interview.{outreach_row, open_interview, message}
use hacknation_hackathon.Json.{str, Row, json_list}
use hacknation_hackathon.App.World.{suppressed_person, Environment, World}
use hacknation_hackathon.App.Outreach.{
  OutreachRequest, OutreachTransition, outreach_table, is_suppressed, transition_outreach,
  transitioned,
}
use hacknation_hackathon.App.Outreach.Sending.{pick_founder, person_of, send_outreach}
use hacknation_hackathon.App.Outreach.Suppression.{Failed, send_outreach_fails}
use hacknation_hackathon.App.Outreach.Transition.{Transition, transition_outreach_moves}
use hacknation_hackathon.App.Interview.Completion.{complete, opt_out}
use hacknation_hackathon.App.Interview.History.{Call, opened, said, after_all}
use hacknation_hackathon.App.Interview.Gate.{Consented, complete-Consented}
use hacknation_hackathon.App.Store.{
  Fixtures, Overlay, upsert, refusal, table_rows, row_key, to_json_value, put, lookup,
}
use hacknation_hackathon.App.Store.Backing.{backed, backed-ReadsBack}
use hacknation_hackathon.App.Interview.OptOut.{opt_out_honoured, opt_out_returns}
use hacknation_hackathon.App.Auth.{new_sessions, logins, granted, is_valid, is_valid-logins}

abbrev Store : Type 0
Store = Dict (List Row)

abbrev listed : Store → String → List Row
listed store table = or_else (get store table) []

abbrev env : Environment Store
env = record {
  rows = listed;
  upsert = λ table rows store. ok (insert table (rows ++ listed store table) store);
  deliver = λ n mail. ok tt;
  complete = λ n prompt structured.
      ok record { text = "Thanks."; parsed = some (("education", json_list []) ∷ []) };
  rescore = λ row store.
      (ok record { status = "ok"; score_rows = (("score_id", str "s1") ∷ []) ∷ [] }, store);
  clock = λ n. n;
  new_id = λ n. "id";
  new_token = λ n. "token";
  sha256 = λ s. s;
  isoformat = λ n. "2026-01-01";
  as_utc = λ s. none;
  strip = λ s. s;
  lower = λ s. s;
  payload_errors = λ row. [];
  of_int = λ n. record { bits = 0 };
  model_version = "m1";
}

abbrev venture : Row
venture = ("venture_id", str "v1") ∷ ("name", str "Acme") ∷ []

abbrev member : Row
member = ("venture_id", str "v1") ∷ ("person_id", str "p1") ∷ []

abbrev person : Row
person = ("person_id", str "p1") ∷ ("primary_email", str "ada@acme.example") ∷ []

abbrev base : Store
base =
    ("gold.venture", venture ∷ [])
    ∷ ("gold.v_venture_team", member ∷ [])
    ∷ ("silver.person", person ∷ [])
    ∷ []

abbrev sent_row : Row
sent_row =
    ("outreach_id", str "o1")
    ∷ ("venture_id", str "v1")
    ∷ ("person_id", str "p1")
    ∷ ("token_hash", str "token")
    ∷ ("status", str "sent")
    ∷ []

abbrev world : Store → World Store
world store = record { store = store; sent = []; active = []; asked = 0 }

abbrev request : OutreachRequest
request = record {
  venture_id = "v1";
  thesis_id = none;
  base_url = "https://hunt.example";
  actor = "vc";
}

abbrev founder : Row
founder =
    ("venture_id", str "v1") ∷ ("person_id", str "p1") ∷ ("to_email", str "ada@acme.example") ∷ []

abbrev opted_out_store : Store
opted_out_store =
    ("gold.outreach", (("person_id", str "p1") ∷ ("status", str "opted_out") ∷ []) ∷ []) ∷ base

send_outreach_fails_example :
    Failed env request (world opted_out_store) (suppressed_person "p1") (world opted_out_store)
unfolding get insert send_outreach pick_founder is_suppressed sort_by person_of
send_outreach_fails_example = send_outreach_fails env request (world opted_out_store) refl

abbrev asked_store : Store
asked_store = ("gold.outreach", sent_row ∷ []) ∷ base

abbrev reply : OutreachTransition
reply = record { status = "replied"; actor = "p1"; now = 5; consent_at = none }

transition_outreach_moves_example :
    Transition env sent_row reply
      (transitioned env sent_row reply)
      (world asked_store)
      (transition_outreach env sent_row reply (world asked_store)).1
unfolding get insert transition_outreach
transition_outreach_moves_example =
    transition_outreach_moves env sent_row reply (world asked_store) refl

-- The fixture store, with one row in gold.outreach that was sent.
abbrev fixtures : Fixtures
fixtures = record {
  load_table = λ table. if table == "gold.outreach" then sent_row ∷ [] else [];
  is_known = λ table. true;
  primary_key = λ table. "outreach_id" ∷ [];
  isoformat = λ n. "2026-01-01";
  text_of = λ j. "None";
  canonical_json = λ row. "{}";
}

abbrev seams : Environment Overlay
seams = record {
  rows = λ overlay table. [];
  upsert = λ table rows overlay. ok overlay;
  rescore = λ row overlay. (ok record { status = "ok"; score_rows = [] }, overlay);
  deliver = env.deliver;
  complete = env.complete;
  clock = env.clock;
  new_id = env.new_id;
  new_token = env.new_token;
  sha256 = env.sha256;
  isoformat = env.isoformat;
  as_utc = env.as_utc;
  strip = env.strip;
  lower = env.lower;
  payload_errors = env.payload_errors;
  of_int = env.of_int;
  model_version = env.model_version;
}

abbrev fixture_env : Environment Overlay
fixture_env = backed fixtures seams

abbrev fixture_world : World Overlay
fixture_world = record { store = []; sent = []; active = []; asked = 0 }

opt_out_honoured_example :
    (is_suppressed fixture_env (opt_out fixture_env "token" fixture_world).1.store "p1" ≡ true)
    × (get (opt_out fixture_env "token" fixture_world).1.active "o1" ≡ none)
unfolding get insert opt_out transition_outreach upsert refusal table_rows row_key to_json_value put
    lookup outreach_row
opt_out_honoured_example =
    opt_out_honoured fixture_env (backed-ReadsBack fixtures seams) "token" "p1" sent_row
      fixture_world refl refl refl

abbrev chat : List Call
chat =
    opened "token" "laptop"
    ∷ said "token" "laptop" "yes"
    ∷ said "token" "laptop" "We build rockets"
    ∷ []

complete-Consented_example : Consented env "token" "laptop" (after_all env chat (world asked_store))
unfolding get insert complete message open_interview transition_outreach
complete-Consented_example =
    complete-Consented env chat (world asked_store) refl "token" "laptop" refl

abbrev attempts : List (String × String)
attempts = ("t1", "wrong") ∷ ("t2", "demo") ∷ []

is_valid-logins_example :
    is_valid (some "t2") (logins attempts (new_sessions "demo"))
    ≡ (contains "t2" [] || contains "t2" (granted "demo" attempts))
is_valid-logins_example = is_valid-logins "t2" attempts (new_sessions "demo")

writes : (rows : List Row) (s : Store) → (s' : Store) × (env.upsert outreach_table rows s ≡ ok s')
writes rows s = (_, refl)

opt_out_returns_example :
    (w' : World Store) × (opt_out env "token" (world asked_store) ≡ (ok true, w'))
unfolding get outreach_row
opt_out_returns_example = opt_out_returns env writes "token" sent_row (world asked_store) refl
