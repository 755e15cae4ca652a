-- ===== src/Scrapers/Runner/Delivery.antt =====
-- What a run delivers to the sink.
use mathlib.Core.List.{append-nil, append_assoc}
use hacknation_hackathon.Base.{
  String, ◌≡◌, refl, sym, ap, ◌∙◌, subst, Option, List, [], ◌∷◌, ◌++◌, ◌==◌, eq_iff, arith, leb,
  length, or_else, count, count_of_contains, inl, inr, Bool-cases, Result, ok, err, if◌then◌else◌,
}
use hacknation_hackathon.Base.Dict.{
  Dict, get, insert, keys, IsDict, insert-IsDict, get-insert, get-eq-none,
}
use hacknation_hackathon.Json.{Row}
use hacknation_hackathon.Scrapers.Runner.{
  Environment, Run, Action, Calls, upsert, load, save, ◌>>=◌, ◌>>◌, BronzeRecord, Stream, ends,
  raises, batch, RunError, batch_size, flush, push, push_all, fetch_all, flush_buffers, drain,
  put_buffer, start, start_cursor, run_from, finish, execute_run, Scraper, Cursor, RunResult,
}
use hacknation_hackathon.Scrapers.Runner.Cursors.{finish_ok, loaded_run, execute_run-loaded}

-- Inversion of a sequence that ended well.
pub >>=-eq-ok :
    {A B : Type 0} (m : Action A) (k : A → Action B) (s : Run) {b : B} {t : Run}
    → (m >>= k) s ≡ (ok b, t)
    → (a : A) × (u : Run) × (m s ≡ (ok a, u)) × (k a u ≡ (ok b, t))
>>=-eq-ok {A} {B} m k s {b} {t} h = go (m s) refl h
  where
    go :
        (r : Result RunError A × Run)
        → m s ≡ r
        → (let (x, s') = r in elim x [ ok a ↦ k a s' | err e ↦ (err e, s') ]) ≡ (ok b, t)
        → (a : A) × (u : Run) × (m s ≡ (ok a, u)) × (k a u ≡ (ok b, t))
    go (ok a, u) e h' = (a, u, e, h')
    go (err x, u) e h' = cc

-- The rows that the sink was given for a table, in the order of the calls.
abbrev pub delivered : String → Calls → List Row
delivered t [] = []
delivered t (upsert table rows key ∷ cs) =
    if table == t then delivered t cs ++ rows else delivered t cs
delivered t (load source ∷ cs) = delivered t cs
delivered t (save source cursor status error items ∷ cs) = delivered t cs

-- The rows for a table among the records that `normalize` gave.
abbrev pub record_rows : String → List BronzeRecord → List Row
record_rows t [] = []
record_rows t (r ∷ rs) = if r.table == t then r.row ∷ record_rows t rs else record_rows t rs

abbrev pub stream_rows : String → Stream → List Row
stream_rows t ends = []
stream_rows t (raises e) = []
stream_rows t (batch rs rest) = record_rows t rs ++ stream_rows t rest

abbrev pending : String → Dict (List Row) → List Row
pending t d = or_else (get d t) []

flush_lem :
    (env : Environment) (table : String) (rows : List Row) (s : Run) {s' : Run} (t : String)
    → flush env table rows s ≡ (ok tt, s')
    → (s'.buffers ≡ s.buffers)
      × (delivered t s'.calls
          ≡ (if table == t then delivered t s.calls ++ rows else delivered t s.calls))
unfolding flush
flush_lem env table [] s t h = ground (arith, append-nil (delivered t s.calls))
flush_lem env table (r ∷ rs) s t h = ground arith

pending-insert :
    (k t : String) (rows : List Row) (d : Dict (List Row))
    → pending t (insert k rows d) ≡ (if k == t then rows else pending t d)
pending-insert k t rows d = rw get-insert (ground arith)

-- All rows for `t` that the run has been given, delivered or waiting.
abbrev held : String → Run → List Row
held t s = delivered t s.calls ++ pending t s.buffers

-- What a step that ended in `s'` has added to them; the buffers stay a dict.
abbrev Holds : Run → Run → String → List Row → Type 0
Holds s s' t new = IsDict s'.buffers × (held t s' ≡ held t s ++ new)

held_buffered :
    (r : BronzeRecord) (s : Run) (t : String)
    → held t
        (record s { buffers = insert r.table (pending r.table s.buffers ++ r.row ∷ []) s.buffers })
      ≡ held t s ++ record_rows t (r ∷ [])
held_buffered r s t = rw pending-insert (
    ground (
      arith,
      eq_iff r.table t,
      append-nil (held t s),
      append_assoc (delivered t s.calls) (pending t s.buffers) (r.row ∷ []),
    ))

-- A full buffer that was flushed and cleared.
held_flushed :
    (r : BronzeRecord) (s u : Run) (t : String)
    → (let rows = pending r.table s.buffers ++ r.row ∷ [] in
        (u.buffers ≡ insert r.table rows s.buffers)
        × (delivered t u.calls
            ≡ (if r.table == t then delivered t s.calls ++ rows else delivered t s.calls)))
    → held t (record u { buffers = insert r.table [] u.buffers })
      ≡ held t s ++ record_rows t (r ∷ [])
held_flushed r s u t (hb, hc) =
    rw (pending-insert, hc, hb, pending-insert)
      (ground (
        arith,
        eq_iff r.table t,
        append-nil (held t s),
        append-nil (delivered t s.calls ++ pending t s.buffers ++ r.row ∷ []),
        append-nil (delivered t s.calls ++ (pending r.table s.buffers ++ r.row ∷ [])),
        append_assoc (delivered t s.calls) (pending t s.buffers) (r.row ∷ []),
      ))

push_lem :
    (env : Environment) (r : BronzeRecord) (s : Run) {s' : Run} (t : String)
    → push env r s ≡ (ok tt, s')
    → IsDict s.buffers
    → Holds s s' t (record_rows t (r ∷ []))
unfolding push
push_lem env r s t h d =
    let rows = pending r.table s.buffers ++ r.row ∷ [] in
    elim (Bool-cases (leb batch_size (length rows))) [
      | inr e ↦
          subst (λ u. Holds s u t (record_rows t (r ∷ []))) (ap (λ p. p.1) (rw e at h))
            (insert-IsDict r.table rows s.buffers d, held_buffered r s t)
      | inl e ↦
          let s₁ : Run = record s { buffers = insert r.table rows s.buffers } in
          let (_, u, flushed, cleared) =
            >>=-eq-ok (put_buffer env r.table rows >> flush env r.table rows)
              (λ _. put_buffer env r.table []) s (rw e at h) in
          let sent = flush_lem env r.table rows s₁ t flushed in
          let dict : IsDict u.buffers =
            subst (λ b. IsDict b) (sym sent.0) (insert-IsDict r.table rows s.buffers d) in
          subst (λ w. Holds s w t (record_rows t (r ∷ []))) (ap (λ p. p.1) cleared)
            (insert-IsDict r.table [] u.buffers dict, held_flushed r s u t sent)
    ]

record_rows-cons :
    (t : String) (r : BronzeRecord) (rs : List BronzeRecord)
    → record_rows t (r ∷ rs) ≡ record_rows t (r ∷ []) ++ record_rows t rs
record_rows-cons t r rs = ground arith

Holds-trans :
    (s u w : Run) (t : String) (xs ys zs : List Row)
    → Holds s u t xs
    → Holds u w t ys
    → zs ≡ xs ++ ys
    → Holds s w t zs
Holds-trans s u w t xs ys zs (_, a) (d, b) e =
    (d, b ∙ ap (λ l. l ++ ys) a ∙ append_assoc (held t s) xs ys ∙ ap (λ l. held t s ++ l) (sym e))

Holds-refl : (s : Run) (t : String) → IsDict s.buffers → Holds s s t []
Holds-refl s t d = (d, sym (append-nil (held t s)))

push_all_lem :
    (env : Environment) (rs : List BronzeRecord) (s : Run) {s' : Run} (t : String)
    → push_all env rs s ≡ (ok tt, s')
    → IsDict s.buffers
    → Holds s s' t (record_rows t rs)
unfolding push_all
push_all_lem env [] s t h d = subst (λ u. Holds s u t []) (ap (λ p. p.1) h) (Holds-refl s t d)
push_all_lem env (r ∷ rs) s {s'} t h d =
    let (_, u, one, rest) = >>=-eq-ok (push env r) (λ _. push_all env rs) s h in
    let first = push_lem env r s t one d in
    Holds-trans s u s' t (record_rows t (r ∷ [])) (record_rows t rs) (record_rows t (r ∷ rs)) first
      (push_all_lem env rs u t rest first.0) (record_rows-cons t r rs)

fetch_all_lem :
    (env : Environment) (stream : Stream) (s : Run) {s' : Run} (t : String)
    → fetch_all env stream s ≡ (ok tt, s')
    → IsDict s.buffers
    → Holds s s' t (stream_rows t stream)
unfolding fetch_all
fetch_all_lem env ends s t h d = subst (λ u. Holds s u t []) (ap (λ p. p.1) h) (Holds-refl s t d)
fetch_all_lem env (raises e) s t h d = cc
fetch_all_lem env (batch rs rest) s {s'} t h d =
    let (_, u, one, later) = >>=-eq-ok (push_all env rs) (λ _. fetch_all env rest) s h in
    let first = push_all_lem env rs s t one d in
    Holds-trans s u s' t (record_rows t rs) (stream_rows t rest) (stream_rows t (batch rs rest))
      first (fetch_all_lem env rest u t later first.0) refl

-- The rows for `t` in the buffers.
abbrev buffered : String → Dict (List Row) → List Row
buffered t [] = []
buffered t ((k, v) ∷ d) = if k == t then v ++ buffered t d else buffered t d

buffered_none : (t : String) (d : Dict (List Row)) → count t (keys d) ≡ 0 → buffered t d ≡ []
buffered_none t [] h = refl
buffered_none t ((k, v) ∷ d) h = ground (arith, buffered_none t d)

IsDict-tail : (k : String) (v : List Row) (d : Dict (List Row)) → IsDict ((k, v) ∷ d) → IsDict d
unfolding get
IsDict-tail k v d h a = ground (arith, h a, get-eq-none a d, count_of_contains a (keys d))

buffered-eq-pending : (t : String) (d : Dict (List Row)) → IsDict d → buffered t d ≡ pending t d
unfolding get
buffered-eq-pending t [] h = refl
buffered-eq-pending t ((k, v) ∷ d) h =
    ground
      (arith, h t, buffered_none t d, append-nil v, buffered-eq-pending t d (IsDict-tail k v d h))

flush_buffers_lem :
    (env : Environment) (d : Dict (List Row)) (s : Run) {s' : Run} (t : String)
    → flush_buffers env d s ≡ (ok tt, s')
    → delivered t s'.calls ≡ delivered t s.calls ++ buffered t d
unfolding flush_buffers
flush_buffers_lem env [] s t h =
    subst (λ u. delivered t u.calls ≡ delivered t s.calls ++ []) (ap (λ p. p.1) h)
      (sym (append-nil (delivered t s.calls)))
flush_buffers_lem env ((k, v) ∷ d) s t h =
    let (_, u, one, rest) = >>=-eq-ok (flush env k v) (λ _. flush_buffers env d) s h in
    flush_buffers_lem env d u t rest
    ∙ ground
        (arith, (flush_lem env k v s t one).1, append_assoc (delivered t s.calls) v (buffered t d))

pub drain_lem :
    (env : Environment) (stream : Stream) (s : Run) {s' : Run} (t : String)
    → drain env stream s ≡ (ok tt, s')
    → IsDict s.buffers
    → delivered t s'.calls
      ≡ (delivered t s.calls ++ or_else (get s.buffers t) []) ++ stream_rows t stream
unfolding drain
drain_lem env stream s t h d =
    let (_, u, fetched, rest) =
      >>=-eq-ok (fetch_all env stream) (λ _ u. flush_buffers env u.buffers u) s h in
    let held_all = fetch_all_lem env stream s t fetched d in
    flush_buffers_lem env u.buffers u t rest
    ∙ ap (λ l. delivered t u.calls ++ l) (buffered-eq-pending t u.buffers held_all.0)
    ∙ held_all.1

-- If the state store answers the load and the run returns, the rows the sink was given for a table
-- are, in order, those that the scraper normalised from the stored cursor, or from the backfill
-- cursor if none was stored.
pub execute_run_delivers :
    (env : Environment) (scraper : Scraper) (since : String) (stored : Option Cursor)
    → env.loaded [] scraper.source ≡ ok stored
    → {result : RunResult} {s' : Run} → execute_run env scraper since start ≡ (ok result, s')
    → (t : String)
    → delivered t s'.calls
      ≡ stream_rows t (scraper.fetch (start_cursor scraper.source since stored))
unfolding run_from get
execute_run_delivers env scraper since stored known {result} {s'} h t =
    let cursor = start_cursor scraper.source since stored in
    let (r, u) = drain env (scraper.fetch cursor) (loaded_run scraper) in
    let h' : finish env scraper.source cursor (scraper.next_cursor cursor) r u ≡ (ok result, s') =
      sym (execute_run-loaded env scraper since stored known) ∙ h in
    let (drained, calls, _, _) =
      finish_ok env scraper.source cursor (scraper.next_cursor cursor) r u h' in
    ap (delivered t) calls
    ∙ drain_lem env (scraper.fetch cursor) (loaded_run scraper) t
        (ap (λ (x : Result RunError (Unit {0})). (x, u)) drained) (λ a. refl)
