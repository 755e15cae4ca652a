-- ===== src/Scrapers/Runner/Returns.antt =====
-- When a run returns: with a sink and a state store that answer, it is the stream that decides.
use hacknation_hackathon.Base.{
  String, Bool, true, false, ◌≡◌, refl, ◌∙◌, ap, Option, some, List, [], ◌∷◌, ◌++◌, or_else, leb,
  length, Result, ok, err, if◌then◌else◌,
}
use hacknation_hackathon.Base.Dict.{Dict, get}
use hacknation_hackathon.Json.{Row}
use hacknation_hackathon.Scrapers.Runner.{
  Environment, Run, RunResult, Action, Calls, Cursor, Scraper, ◌>>=◌, ◌>>◌, BronzeRecord, Stream,
  ends, raises, batch, RunError, UpsertResult, batch_size, start, start_cursor, send, flush, push,
  push_all, fetch_all, flush_buffers, drain, put_buffer, finish, run_from, execute_run,
}
use hacknation_hackathon.Scrapers.Runner.Cursors.{loaded_run, execute_run-loaded}

-- A stream that ends.
abbrev pub Ends : Stream → Type 0
Ends ends = Unit
Ends (raises e) = ⊥
Ends (batch rs rest) = Ends rest

-- The sink, the registry and the state store answer every call.
pub record Answers (env : Environment) : Type 0 where
  pub upserts :
      (calls : Calls) (table : String) (rows : List Row)
      → (r : UpsertResult) × (env.upserted calls table rows ≡ ok r)
  pub saves_state : (calls : Calls) → env.saved calls ≡ ok tt
  pub knows : (table : String) → (key : List String) × (env.primary_key table ≡ some key)

Returns : {A : Type 0} → Action A → Type 0
Returns {A} m = (s : Run) → (a : A) × (u : Run) × (m s ≡ (ok a, u))

Returns-seq :
    {A B : Type 0} (m : Action A) (k : A → Action B)
    → Returns m
    → ((a : A) → Returns (k a))
    → Returns (m >>= k)
unfolding Returns
Returns-seq {A} {B} m k hm hk s =
    let (a, u, e) = hm s in
    let (b, v, e') = hk a u in
    let after : Result RunError A × Run → Result RunError B × Run =
      λ (r, s'). elim r as (λ _. Result RunError B × Run) [ ok x ↦ k x s' | err x ↦ (err x, s') ] in
    (b, v, ap after e ∙ e')

module _ (env : Environment) (answers : Answers env) where
  Returns-flush : (table : String) (rows : List Row) → Returns (flush env table rows)
  unfolding Returns flush send
  Returns-flush table [] s = (tt, s, refl)
  Returns-flush table (r ∷ rs) s =
      let (key, known) = answers.knows table in
      let (result, e) = answers.upserts s.calls table (r ∷ rs) in rw known (rw e (_, _, refl))

  Returns-push : (r : BronzeRecord) → Returns (push env r)
  unfolding push Returns
  Returns-push r s = go (leb batch_size (length rows))
    where
      rows : List Row
      rows = or_else (get s.buffers r.table) [] ++ r.row ∷ []

      go :
          (b : Bool)
          → (a : Unit {0}) × (u : Run) × ((if b
                then (put_buffer env r.table rows
                      >> flush env r.table rows
                      >> put_buffer env r.table [])
                    s
                else put_buffer env r.table rows s)
              ≡ (ok a, u))
      go false = (tt, _, refl)
      go true =
          let (a, u, e) = Returns-flush r.table rows (put_buffer env r.table rows s).1 in
          (
            tt,
            (put_buffer env r.table [] u).1,
            ap
                (λ (p : Result RunError (Unit {0}) × Run).
                  (let (x, s') = p in
                    elim x as (λ _. Result RunError (Unit {0}) × Run) [
                      | ok y ↦ put_buffer env r.table [] s'
                      | err y ↦ (err y, s')
                    ]))
                e,
          )

  Returns-push_all : (rs : List BronzeRecord) → Returns (push_all env rs)
  unfolding push_all
  Returns-push_all [] = unfold Returns in λ s. (tt, s, refl)
  Returns-push_all (r ∷ rs) =
      Returns-seq (push env r) (λ _. push_all env rs) (Returns-push r) (λ _. Returns-push_all rs)

  Returns-fetch_all : (stream : Stream) → Ends stream → Returns (fetch_all env stream)
  unfolding fetch_all
  Returns-fetch_all ends h = unfold Returns in λ s. (tt, s, refl)
  Returns-fetch_all (raises e) h = absurd h
  Returns-fetch_all (batch rs rest) h =
      Returns-seq (push_all env rs) (λ _. fetch_all env rest) (Returns-push_all rs)
        (λ _. Returns-fetch_all rest h)

  Returns-flush_buffers : (d : Dict (List Row)) → Returns (flush_buffers env d)
  unfolding flush_buffers
  Returns-flush_buffers [] = unfold Returns in λ s. (tt, s, refl)
  Returns-flush_buffers ((k, v) ∷ d) =
      Returns-seq (flush env k v) (λ _. flush_buffers env d) (Returns-flush k v)
        (λ _. Returns-flush_buffers d)

  Returns-drain : (stream : Stream) → Ends stream → Returns (drain env stream)
  unfolding drain
  Returns-drain stream h =
      Returns-seq (fetch_all env stream) (λ _ s. flush_buffers env s.buffers s)
        (Returns-fetch_all stream h) (λ _. unfold Returns in λ s. Returns-flush_buffers s.buffers s)

  -- Where the sink, the registry of tables and the state store answer every call and the stream of
  -- the scraper ends without raising, the run returns.
  pub execute_run_returns :
      (scraper : Scraper) (since : String) (stored : Option Cursor)
      → env.loaded [] scraper.source ≡ ok stored
      → Ends (scraper.fetch (start_cursor scraper.source since stored))
      → (result : RunResult) × (s : Run) × (execute_run env scraper since start ≡ (ok result, s))
  unfolding run_from Returns finish
  execute_run_returns scraper since stored known h =
      let (a, u, e) =
        Returns-drain (scraper.fetch (start_cursor scraper.source since stored)) h
          (loaded_run scraper) in
      rw (execute_run-loaded env scraper since stored known, run_from, e)
        (rw (answers.saves_state u.calls) (_, _, refl))
