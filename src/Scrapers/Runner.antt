-- ===== src/Scrapers/Runner.antt =====
-- scrapers/common/base.py: the run loop of every scraper. The sink, the state store and the scraper
-- itself are protocols there, so they are an environment here, which answers each call by what was
-- called before; the state of a run is the calls made so far, the row buffers and the tally.
pub mod Delivery
pub mod Returns
pub mod Cursors
use hacknation_hackathon.Base.{
  ℕ, ◌+◌, String, Bool, true, false, Option, none, some, List, [], ◌∷◌, ◌++◌, ◌==◌, leb, length,
  or_else, Result, ok, err, if◌then◌else◌,
}
use hacknation_hackathon.Base.Dict.{Dict, get, insert}
use hacknation_hackathon.Json.{Row, str}

-- BATCH_SIZE, REJECTS_TABLE and REJECTS_KEYS
abbrev pub batch_size : ℕ
batch_size = 500

abbrev pub rejects_table : String
rejects_table = "bronze._rejects"

abbrev pub rejects_keys : List String
rejects_keys = "source" ∷ "natural_key" ∷ []

pub record Cursor : Type 0 where
  pub source : String
  pub state : Row

pub record BronzeRecord : Type 0 where
  pub table : String
  pub row : Row

pub record UpsertResult : Type 0 where
  pub inserted : ℕ
  pub updated : ℕ
  pub skipped_unchanged : ℕ
  pub suppressed : ℕ

pub record RunResult : Type 0 where
  pub source : String
  pub items_upserted : ℕ
  pub rejects : ℕ
  pub cursor : Cursor

-- An exception, with its text: of RUN_FAILURES those of the source's HTTP side (HttpStatusError,
-- httpx.HTTPError) and those of the warehouse side (WarehouseError, DatabricksError, RowShapeError),
-- or any other.
pub data RunError : Type 0 where
  http_failure : String → RunError
  warehouse_failure : String → RunError
  bug : String → RunError

-- What `fetch` yields, each batch already normalised, until it ends or raises.
pub data Stream : Type 0 where
  ends : Stream
  raises : RunError → Stream
  batch : List BronzeRecord → Stream → Stream

-- A call of the sink or of the state store.
pub data Call : Type 0 where
  upsert : String → List Row → List String → Call
  load : String → Call
  save : String → Cursor → String → Option String → ℕ → Call

-- The newest call stands first.
abbrev pub Calls : Type 0
Calls = List Call

pub record Environment : Type 0 where
  pub upserted : Calls → String → List Row → Result RunError UpsertResult
  pub loaded : Calls → String → Result RunError (Option Cursor)
  pub saved : Calls → Result RunError (Unit {0})
  -- `table_schema(table).primary_key`; `none` is the UnknownTableError
  pub primary_key : String → Option (List String)

pub record Run : Type 0 where
  pub calls : Calls
  pub buffers : Dict (List Row)
  pub upserted : ℕ
  pub rejects : ℕ

abbrev pub Action : Type 0 → Type 0
Action A = Run → Result RunError A × Run

infixl 5 ◌>>=◌
abbrev pub ◌>>=◌ : {A B : Type 0} (call : Action A) (next : A → Action B) → Action B
◌>>=◌ m f s = let (r, s') = m s in elim r [ ok a ↦ f a s' | err e ↦ (err e, s') ]

infixl 5 ◌>>◌
abbrev pub ◌>>◌ : {A B : Type 0} → Action A → Action B → Action B
first >> second = first >>= λ done. second

abbrev pub pure : {A : Type 0} → A → Action A
pure a s = (ok a, s)

-- `list(schema.primary_key or REJECTS_KEYS)`
abbrev pub merge_keys : List String → List String
merge_keys [] = rejects_keys
merge_keys (k ∷ ks) = k ∷ ks

count_rows : String → List Row → UpsertResult → Run → Run
count_rows table rows result s =
    if table == rejects_table
    then record s { rejects = s.rejects + length rows }
    else record s { upserted = s.upserted + (result.inserted + result.updated) }

unfoldable pub tally : String → List Row → Result RunError UpsertResult → Action (Unit {0})
unfolding count_rows
tally table rows (err e) s = (err e, s)
tally table rows (ok result) s = (ok tt, count_rows table rows result s)

module _ (env : Environment) where
  unfoldable pub send : String → List Row → Option (List String) → Action (Unit {0})
  unfolding tally
  send table rows none s = (err (bug table), s)
  send table rows (some key) s =
      tally table rows (env.upserted s.calls table rows)
        (record s { calls = upsert table rows (merge_keys key) ∷ s.calls })

  -- `_flush`, up to the `rows.clear()` that ends it
  unfoldable pub flush : String → List Row → Action (Unit {0})
  unfolding send
  flush table [] s = (ok tt, s)
  flush table (r ∷ rs) s = send table (r ∷ rs) (env.primary_key table) s

  abbrev put_buffer : String → List Row → Action (Unit {0})
  put_buffer table rows s = (ok tt, record s { buffers = insert table rows s.buffers })

  -- The body of the inner loop of `_drain`: the buffer grows, and is flushed and cleared when full.
  unfoldable pub push : BronzeRecord → Action (Unit {0})
  unfolding flush
  push r s =
      let rows = or_else (get s.buffers r.table) [] ++ r.row ∷ [] in
      if leb batch_size (length rows)
      then (put_buffer r.table rows >> flush r.table rows >> put_buffer r.table []) s
      else put_buffer r.table rows s

  unfoldable pub push_all : List BronzeRecord → Action (Unit {0})
  unfolding push
  push_all [] = pure tt
  push_all (r ∷ rs) = push r >> push_all rs

  unfoldable pub fetch_all : Stream → Action (Unit {0})
  unfolding push_all
  fetch_all ends s = (ok tt, s)
  fetch_all (raises e) s = (err e, s)
  fetch_all (batch rs rest) s = (push_all rs >> fetch_all rest) s

  unfoldable pub flush_buffers : Dict (List Row) → Action (Unit {0})
  unfolding flush
  flush_buffers [] = pure tt
  flush_buffers ((table, rows) ∷ d) = flush table rows >> flush_buffers d

  unfoldable pub drain : Stream → Action (Unit {0})
  unfolding fetch_all flush_buffers
  drain stream = fetch_all stream >> λ s. flush_buffers s.buffers s

  unfoldable pub save_state : String → Cursor → String → Option String → ℕ → Action (Unit {0})
  save_state source cursor status error items s =
      (env.saved s.calls, record s { calls = save source cursor status error items ∷ s.calls })

  -- `contextlib.suppress` of the best-effort save hides a failure of the warehouse side; any other
  -- exception replaces the one in flight.
  unfoldable pub suppress : RunError → Result RunError (Unit {0}) → RunError
  suppress e (ok _) = e
  suppress e (err (warehouse_failure _)) = e
  suppress e (err (http_failure m)) = http_failure m
  suppress e (err (bug m)) = bug m

  -- The handler of RUN_FAILURES, with the failure and its text.
  unfoldable pub give_up : String → Cursor → RunError → String → Action RunResult
  unfolding save_state suppress
  give_up source cursor e text s =
      let (r, s') = save_state source cursor "error" (some text) s.upserted s in
      (err (suppress e r), s')

  unfoldable pub succeed : String → Cursor → Action RunResult
  unfolding save_state
  succeed source new_cursor s =
      (save_state source new_cursor "ok" none s.upserted
          >> pure (record {
            source = source;
            items_upserted = s.upserted;
            rejects = s.rejects;
            cursor = new_cursor;
          }))
        s

  -- What follows on `_drain`.
  unfoldable pub finish : String → Cursor → Cursor → Result RunError (Unit {0}) → Action RunResult
  unfolding give_up succeed
  finish source cursor next (ok _) s = succeed source next s
  finish source cursor next (err (http_failure m)) s = give_up source cursor (http_failure m) m s
  finish source cursor next (err (warehouse_failure m)) s =
      give_up source cursor (warehouse_failure m) m s
  finish source cursor next (err (bug m)) s = (err (bug m), s)

-- A scraper: its name, what `fetch` and `normalize` yield from a cursor, and `next_cursor()` after.
pub record Scraper : Type 0 where
  pub source : String
  pub fetch : Cursor → Stream
  pub next_cursor : Cursor → Cursor

-- `load(...) or Cursor(source, {"since": since.isoformat()})`
abbrev pub start_cursor : String → String → Option Cursor → Cursor
start_cursor source since none = record { source = source; state = ("since", str since) ∷ [] }
start_cursor source since (some c) = c

-- The cursor that the run starts from.
unfoldable pub run_from : Environment → Scraper → Cursor → Action RunResult
unfolding drain finish
run_from env scraper cursor s =
    let (r, s') = drain env (scraper.fetch cursor) s in
    finish env scraper.source cursor (scraper.next_cursor cursor) r s'

unfoldable pub load_state : Environment → String → Action (Option Cursor)
load_state env source s = (env.loaded s.calls source, record s { calls = load source ∷ s.calls })

-- A run begins with no call, no buffer and an empty tally.
abbrev pub start : Run
start = record { calls = []; buffers = []; upserted = 0; rejects = 0 }

unfoldable pub execute_run : Environment → Scraper → String → Action RunResult
unfolding run_from load_state
execute_run env scraper since = load_state env scraper.source >>= λ stored.
    run_from env scraper (start_cursor scraper.source since stored)
