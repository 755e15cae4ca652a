-- ===== src/Scrapers/Runner/Cursors.antt =====
-- When a run saves its cursor, and which.
use hacknation_hackathon.Base.{
  String, ◌≡◌, refl, sym, ap, ◌∙◌, ◌⊎◌, inl, inr, Option, none, some, List, [], ◌∷◌, ◌++◌, arith,
  leb, length, or_else, Bool-cases, Result, ok, err,
}
use hacknation_hackathon.Base.Dict.{Dict, get}
use hacknation_hackathon.Json.{Row}
use hacknation_hackathon.Scrapers.Runner.{
  Environment, Run, RunResult, Action, Calls, Cursor, Scraper, upsert, load, save, ◌>>=◌, ◌>>◌,
  BronzeRecord, Stream, ends, raises, batch, RunError, http_failure, warehouse_failure, bug,
  batch_size, start, start_cursor, flush, push, push_all, fetch_all, flush_buffers, drain,
  put_buffer, execute_run, run_from, finish, suppress,
}

-- The saves among the calls, the newest first.
abbrev pub saves : Calls → Calls
saves [] = []
saves (upsert table rows key ∷ cs) = saves cs
saves (load source ∷ cs) = saves cs
saves (save source cursor status error items ∷ cs) =
    save source cursor status error items ∷ saves cs

-- An action that saves no state, however it ends.
Saveless : {A : Type 0} → Action A → Type 0
Saveless m = (s : Run) → saves (m s).1.calls ≡ saves s.calls

Saveless-seq :
    {A B : Type 0} (m : Action A) (k : A → Action B)
    → Saveless m
    → ((a : A) → Saveless (k a))
    → Saveless (m >>= k)
unfolding Saveless
Saveless-seq {A} {B} m k hm hk s = go (m s) (hm s)
  where
    go :
        (r : Result RunError A × Run)
        → saves r.1.calls ≡ saves s.calls
        → saves
            (let (x, s') = r in
              elim x as (λ _. Result RunError B × Run) [
                | ok a ↦ k a s'
                | err e ↦ (err e, s')
              ]).1.calls
          ≡ saves s.calls
    go (ok a, u) e = hk a u ∙ e
    go (err x, u) e = e

Saveless-flush :
    (env : Environment) (table : String) (rows : List Row) → Saveless (flush env table rows)
unfolding Saveless flush
Saveless-flush env table [] s = refl
Saveless-flush env table (r ∷ rs) s = ground arith

Saveless-put_buffer :
    (env : Environment) (table : String) (rows : List Row) → Saveless (put_buffer env table rows)
unfolding Saveless
Saveless-put_buffer env table rows s = refl

Saveless-push : (env : Environment) (r : BronzeRecord) → Saveless (push env r)
unfolding push Saveless
Saveless-push env r s =
    let rows = or_else (get s.buffers r.table) [] ++ r.row ∷ [] in
    elim (Bool-cases (leb batch_size (length rows))) [
      | inr e ↦ rw e refl
      | inl e ↦ rw e (
          Saveless-seq (put_buffer env r.table rows >> flush env r.table rows)
            (λ _. put_buffer env r.table [])
            (Saveless-seq (put_buffer env r.table rows) (λ _. flush env r.table rows)
              (Saveless-put_buffer env r.table rows) (λ _. Saveless-flush env r.table rows))
            (λ _. Saveless-put_buffer env r.table []) s)
    ]

Saveless-push_all : (env : Environment) (rs : List BronzeRecord) → Saveless (push_all env rs)
unfolding push_all
Saveless-push_all env [] = unfold Saveless in λ s. refl
Saveless-push_all env (r ∷ rs) =
    Saveless-seq (push env r) (λ _. push_all env rs) (Saveless-push env r)
      (λ _. Saveless-push_all env rs)

Saveless-fetch_all : (env : Environment) (stream : Stream) → Saveless (fetch_all env stream)
unfolding fetch_all Saveless
Saveless-fetch_all env ends s = refl
Saveless-fetch_all env (raises e) s = refl
Saveless-fetch_all env (batch rs rest) s =
    Saveless-seq (push_all env rs) (λ _. fetch_all env rest) (Saveless-push_all env rs)
      (λ _. Saveless-fetch_all env rest) s

Saveless-flush_buffers : (env : Environment) (d : Dict (List Row)) → Saveless (flush_buffers env d)
unfolding flush_buffers
Saveless-flush_buffers env [] = unfold Saveless in λ s. refl
Saveless-flush_buffers env ((k, v) ∷ d) =
    Saveless-seq (flush env k v) (λ _. flush_buffers env d) (Saveless-flush env k v)
      (λ _. Saveless-flush_buffers env d)

Saveless-drain : (env : Environment) (stream : Stream) → Saveless (drain env stream)
unfolding drain
Saveless-drain env stream =
    Saveless-seq (fetch_all env stream) (λ _ s. flush_buffers env s.buffers s)
      (Saveless-fetch_all env stream)
      (λ _. unfold Saveless in λ s. Saveless-flush_buffers env s.buffers s)

-- A run that returns has drained its stream, and its last call saves the new cursor.
pub finish_ok :
    (env : Environment) (source : String) (cursor next : Cursor) (r : Result RunError (Unit {0}))
    (s : Run) {result : RunResult} {s' : Run}
    → finish env source cursor next r s ≡ (ok result, s')
    → (r ≡ ok tt)
      × (s'.calls ≡ save source next "ok" none s.upserted ∷ s.calls)
      × (result.cursor ≡ next)
      × (result.items_upserted ≡ s.upserted)
unfolding finish
finish_ok env source cursor next (ok u) s h = ground arith
finish_ok env source cursor next (err (http_failure m)) s h = ground arith
finish_ok env source cursor next (err (warehouse_failure m)) s h = ground arith
finish_ok env source cursor next (err (bug m)) s h = ground arith

-- What a run that failed in the drain has saved: nothing, or the cursor that it started from.
finish_failed :
    (env : Environment) (source : String) (cursor next : Cursor) (e : RunError) (s : Run)
    → saves s.calls ≡ []
    → let done = finish env source cursor next (err e) s in
      (saves done.1.calls ≡ [])
      ⊎ ((text : String) × (saves done.1.calls
            ≡ save source cursor "error" (some text) s.upserted ∷ []))
unfolding finish
finish_failed env source cursor next (http_failure m) s h =
    inr (m, ap (λ (cs : Calls). save source cursor "error" (some m) s.upserted ∷ cs) h)
finish_failed env source cursor next (warehouse_failure m) s h =
    inr (m, ap (λ (cs : Calls). save source cursor "error" (some m) s.upserted ∷ cs) h)
finish_failed env source cursor next (bug m) s h = inl h

finish_err :
    (env : Environment) (source : String) (cursor next : Cursor) (e : RunError) (s : Run)
    → (x : RunError) × ((finish env source cursor next (err e) s).0 ≡ err x)
unfolding finish
finish_err env source cursor next (http_failure m) s =
    (suppress env (http_failure m) (env.saved s.calls), refl)
finish_err env source cursor next (warehouse_failure m) s =
    (suppress env (warehouse_failure m) (env.saved s.calls), refl)
finish_err env source cursor next (bug m) s = (bug m, refl)

-- The run after its cursor was read.
abbrev pub loaded_run : Scraper → Run
loaded_run scraper = record start { calls = load scraper.source ∷ [] }

pub execute_run-loaded :
    (env : Environment) (scraper : Scraper) (since : String) (stored : Option Cursor)
    → env.loaded [] scraper.source ≡ ok stored
    → execute_run env scraper since start
      ≡ run_from env scraper (start_cursor scraper.source since stored) (loaded_run scraper)
unfolding execute_run
execute_run-loaded env scraper since stored h = rw h refl

module _ (env : Environment) (scraper : Scraper) (since : String) (stored : Option Cursor)
    (known : env.loaded [] scraper.source ≡ ok stored) where
  abbrev first : Cursor
  first = start_cursor scraper.source since stored

  -- If the state store answers the load, a run that returns saves its state once, as its last call
  -- and with status ok, and the saved cursor is the next one of the scraper, which is also the one
  -- returned.
  pub execute_run-saves :
      {result : RunResult} {s' : Run}
      → execute_run env scraper since start ≡ (ok result, s')
      → (older : Calls) × (s'.calls
          ≡ save scraper.source (scraper.next_cursor first) "ok" none result.items_upserted ∷ older)
        × (saves older ≡ [])
        × (result.cursor ≡ scraper.next_cursor first)
  unfolding run_from
  execute_run-saves {result} {s'} h =
      let (r, u) = drain env (scraper.fetch first) (loaded_run scraper) in
      let h' : finish env scraper.source first (scraper.next_cursor first) r u ≡ (ok result, s') =
        sym (execute_run-loaded env scraper since stored known) ∙ h in
      let (_, calls, cursor, items) =
        finish_ok env scraper.source first (scraper.next_cursor first) r u h' in
      (
        u.calls,
        rw items calls,
        unfold Saveless in Saveless-drain env (scraper.fetch first) (loaded_run scraper),
        cursor,
      )

  -- If the state store answers the load, a run whose drain raises does not return, and it saves
  -- nothing, or only, with status error, the cursor that it started from.
  pub execute_run_fails :
      {e : RunError} {u : Run}
      → drain env (scraper.fetch first) (loaded_run scraper) ≡ (err e, u)
      → let done = execute_run env scraper since start in
        ((x : RunError) × (done.0 ≡ err x))
        × ((saves done.1.calls ≡ [])
            ⊎ ((text : String) × (saves done.1.calls
                  ≡ save scraper.source first "error" (some text) u.upserted ∷ [])))
  unfolding run_from
  execute_run_fails {e} {u} h =
      let none_saved : saves u.calls ≡ [] =
        ap (λ (p : Result RunError (Unit {0}) × Run). saves p.1.calls) (sym h)
        ∙ (unfold Saveless in Saveless-drain env (scraper.fetch first) (loaded_run scraper)) in
      rw (execute_run-loaded env scraper since stored known, run_from, h)
        (
          finish_err env scraper.source first (scraper.next_cursor first) e u,
          finish_failed env scraper.source first (scraper.next_cursor first) e u none_saved,
        )
