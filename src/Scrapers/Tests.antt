-- ===== src/Scrapers/Tests.antt =====
-- The scraper framework run on small inputs.
use hacknation_hackathon.Base.{String, ◌≡◌, ◌⊎◌, refl, none, some, [], ◌∷◌, ok, err}
use hacknation_hackathon.Base.Dict.{get, insert}
use hacknation_hackathon.Json.{str}
use hacknation_hackathon.Scrapers.Runner.{
  Cursor, BronzeRecord, RunError, http_failure, ends, raises, batch, Stream, Calls, save,
  Environment, Run, RunResult, Scraper, start_cursor, start, drain, execute_run,
}
use hacknation_hackathon.Scrapers.Runner.Delivery.{delivered, stream_rows, execute_run_delivers}
use hacknation_hackathon.Scrapers.Runner.Cursors.{saves, execute_run-saves, execute_run_fails}
use hacknation_hackathon.Scrapers.Runner.Returns.{Answers, execute_run_returns}

abbrev healthy : Environment
healthy = record {
  upserted = λ calls table rows.
      ok record { inserted = 1; updated = 0; skipped_unchanged = 0; suppressed = 0 };
  loaded = λ calls source. ok none;
  saved = λ calls. ok tt;
  primary_key = λ table. some ("repo_id" ∷ []);
}

abbrev repo : String → BronzeRecord
repo id = record { table = "bronze.github_repo"; row = ("repo_id", str id) ∷ [] }

abbrev two_pages : Stream
two_pages = batch (repo "1" ∷ repo "2" ∷ []) (batch (repo "3" ∷ []) ends)

abbrev broken_page : Stream
broken_page = batch (repo "1" ∷ []) (raises (http_failure "HTTP 502"))

abbrev github : Stream → Scraper
github pages = record {
  source = "github";
  fetch = λ cursor. pages;
  next_cursor = λ cursor. record { source = "github"; state = ("page", str "3") ∷ [] };
}

abbrev backfill : Cursor
backfill = start_cursor "github" "2026-01-01" none

execute_run_delivers_example :
    delivered "bronze.github_repo"
      (execute_run healthy (github two_pages) "2026-01-01" start).1.calls
    ≡ stream_rows "bronze.github_repo" two_pages
unfolding execute_run get insert
execute_run_delivers_example =
    execute_run_delivers healthy (github two_pages) "2026-01-01" none refl refl "bronze.github_repo"

execute_run-saves_example :
    (older : Calls) × ((execute_run healthy (github two_pages) "2026-01-01" start).1.calls
      ≡ save "github" ((github two_pages).next_cursor backfill) "ok" none 1 ∷ older)
    × (saves older ≡ [])
    × ((github two_pages).next_cursor backfill ≡ (github two_pages).next_cursor backfill)
unfolding execute_run get insert
execute_run-saves_example = execute_run-saves healthy (github two_pages) "2026-01-01" none refl refl

execute_run_fails_example :
    let done = execute_run healthy (github broken_page) "2026-01-01" start in
    ((x : RunError) × (done.0 ≡ err x))
    × ((saves done.1.calls ≡ [])
        ⊎ ((text : String) × (saves done.1.calls
              ≡ save "github" backfill "error" (some text) 0 ∷ [])))
unfolding drain get insert
execute_run_fails_example =
    execute_run_fails healthy (github broken_page) "2026-01-01" none refl refl

healthy-Answers : Answers healthy
healthy-Answers = record {
  upserts = λ calls table rows. (_, refl);
  saves_state = λ calls. refl;
  knows = λ table. (_, refl);
}

execute_run_returns_example :
    (result : RunResult) × (s : Run) × (execute_run healthy (github two_pages) "2026-01-01" start
      ≡ (ok result, s))
execute_run_returns_example =
    execute_run_returns healthy healthy-Answers (github two_pages) "2026-01-01" none refl tt
