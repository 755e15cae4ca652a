-- ===== src/Scrapers/Memory.antt =====
-- The seams of a dry run: `MemoryStateStore` of scrapers/common/state.py and `NullSink` of
-- scrapers/common/sink.py.
use hacknation_hackathon.Base.{
  ℕ, String, Option, some, List, [], ◌++◌, length, or_else, ◌≡◌, ◌==◌, if◌then◌else◌,
}
use hacknation_hackathon.Base.Dict.{Dict, get, insert, get-insert}
use hacknation_hackathon.Json.{Row}
use hacknation_hackathon.Scrapers.Runner.{Cursor, UpsertResult}

pub record StateStore : Type 0 where
  pub cursors : Dict Cursor
  pub statuses : Dict String

unfoldable pub load : StateStore → String → Option Cursor
load store source = get store.cursors source

unfoldable pub save : String → Cursor → String → Option String → ℕ → StateStore → StateStore
save source cursor status error items_upserted store = record {
  cursors = insert source cursor store.cursors;
  statuses = insert source status store.statuses;
}

-- The rows of each table.
abbrev pub NullSink : Type 0
NullSink = Dict (List Row)

unfoldable pub null_upsert : String → List Row → NullSink → UpsertResult × NullSink
null_upsert table rows sink = (
  record { inserted = length rows; updated = 0; skipped_unchanged = 0; suppressed = 0 },
  insert table (or_else (get sink table) [] ++ rows) sink,
)

-- A cursor that is saved is the one loaded for its source, and what other sources load is
-- unchanged.
pub load-save :
    (source other : String) (cursor : Cursor) (status : String) (error : Option String) (n : ℕ)
    (store : StateStore)
    → load (save source cursor status error n store) other
      ≡ (if source == other then some cursor else load store other)
unfolding load save
load-save source other cursor status error n store = get-insert source other cursor store.cursors
