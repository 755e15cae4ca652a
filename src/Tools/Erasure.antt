-- ===== src/Tools/Erasure.antt =====
-- tools/erase_person.py: the plan of an erasure and its DELETE statements. The clock, sha256, and `int`, `str` and
-- datetime.fromisoformat of the interpreter are arguments. A set of ids is the list of its members.
pub mod Suppression
mod Tests
use hacknation_hackathon.Base.{
  ℕ, suc, String, Bool, true, false, not, ◌||◌, Option, none, some, List, [], ◌∷◌, ◌++◌, map, ◌==◌,
  contains, select, find, length, or_else, Result, ok, err, ◌>>=◌, if◌then◌else◌,
}
use hacknation_hackathon.Base.Dict.{Dict, get}
use hacknation_hackathon.Base.Int.{ℤ, pos}
use hacknation_hackathon.Base.Sort.{sort_by, sorted, str_lt}
use hacknation_hackathon.Base.Text.{join, starts_with}
use hacknation_hackathon.Json.{
  Json, null, int, str, datetime, Row, as_str, get_str, json_list, json_dict, read,
}
use hacknation_hackathon.Er.Normalize.{column_text}
use hacknation_hackathon.Scrapers.Sql.{UnsafeIdentifierError, require_identifier, escape}

abbrev pub Tables : Type 0
Tables = Dict (List Row)

-- `tables.get(name, [])`
abbrev pub rows_of : Tables → String → List Row
rows_of tables name = or_else (get tables name) []

pub record DeleteOp : Type 0 where
  pub table : String
  pub filter : String

pub record ErasurePlan : Type 0 where
  pub person_id : String
  pub erasure_id : String
  pub deletes : List DeleteOp
  pub upserts : Dict (List Row)

-- UnknownPersonError, and the ValueErrors of a GitHub key that is no number and of a created_at that is no time.
pub data ErasureError : Type 0 where
  unknown_person : String → ErasureError
  bad_number : String → ErasureError
  bad_timestamp : String → ErasureError

pub record Interpreter : Type 0 where
  pub sha256 : String → String
  pub show_value : Option Json → String
  pub normal_int : String → Option String
  pub fromisoformat : String → Option ℕ

-- `row.get(key) == text`
abbrev pub column_is : Row → String → String → Bool
column_is row key text = elim (get_str row key) [ some s ↦ s == text | none ↦ false ]

unfoldable pub person_links : Tables → String → List Row
person_links tables person_id =
    select (λ row. column_is row "person_id" person_id) (rows_of tables "silver.person_source_link")

-- The ids of a set, each once.
add_id : Option String → List String → List String
add_id (some id) ids = if contains id ids then ids else id ∷ ids
add_id none ids = ids

unfoldable pub linked_ids : List Row → List String
unfolding add_id
linked_ids [] = []
linked_ids (row ∷ rows) = add_id (get_str row "source_record_id") (linked_ids rows)

source_key_of : String → Row → Option String
source_key_of source row = if column_is row "source" source then get_str row "source_key" else none

unfoldable pub source_keys : List Row → String → List String
unfolding source_key_of
source_keys [] source = []
source_keys (row ∷ rows) source =
    let rest = source_keys rows source in
    elim (source_key_of source row) [ some key ↦ key ∷ rest | none ↦ rest ]

-- `", ".join(texts)`
abbrev comma : List String → String
comma [] = ""
comma (x ∷ []) = x
comma (x ∷ y ∷ xs) = join (x ∷ ", " ∷ comma (y ∷ xs) ∷ [])

abbrev quoted : String → String
quoted value = join ("'" ∷ escape value ∷ "'" ∷ [])

in_clause : String → List String → String
in_clause column values = join (column ∷ " IN (" ∷ comma (map quoted (sorted values)) ∷ ")" ∷ [])

module _ (py : Interpreter) where
  -- `str(int(key))` of each key.
  numerals : List String → Result ErasureError (List String)
  numerals [] = ok []
  numerals (key ∷ keys) = elim (py.normal_int key) as (λ _. Result ErasureError (List String)) [
    | none ↦ err (bad_number key)
    | some n ↦ do rest ← numerals keys; ok (n ∷ rest)
  ]

  github_deletes : List String → Result ErasureError (List DeleteOp)
  unfolding numerals
  github_deletes [] = ok []
  github_deletes (key ∷ keys) = do
    numbers ← numerals (sorted (key ∷ keys))
    ok (
        record {
          table = "bronze.github_users_raw";
          filter = join ("user_id IN (" ∷ comma numbers ∷ ")" ∷ []);
        }
        ∷ record {
          table = "bronze.github_commits_raw";
          filter = join ("author_user_id IN (" ∷ comma numbers ∷ ")" ∷ []);
        }
        ∷ [])

  hacknation_deletes : List String → List DeleteOp
  unfolding in_clause
  hacknation_deletes [] = []
  hacknation_deletes (id ∷ ids) =
      record { table = "bronze.hacknation_people_raw"; filter = in_clause "user_id" (id ∷ ids) }
      ∷ []

  unfoldable pub bronze_deletes : List Row → Result ErasureError (List DeleteOp)
  unfolding github_deletes hacknation_deletes
  bronze_deletes psrs = do
    github ← github_deletes (source_keys psrs "github")
    ok (github ++ hacknation_deletes (source_keys psrs "hacknation"))

  record_deletes : String → List String → List DeleteOp
  unfolding in_clause
  record_deletes person_id [] = []
  record_deletes person_id (id ∷ ids) =
      let clause = in_clause "source_record_id" (sorted (id ∷ ids)) in
      record { table = "silver.person_source_record"; filter = clause }
      ∷ record { table = "silver.person_source_link"; filter = clause }
      ∷ record { table = "silver.contribution"; filter = clause }
      ∷ record { table = "silver.authorship"; filter = clause }
      ∷ record { table = "silver.officer"; filter = clause }
      ∷ record {
        table = "ops.er_review_queue";
        filter = join (clause ∷ " OR candidate_person_id = " ∷ quoted person_id ∷ []);
      }
      ∷ []

  -- `_deletes`
  unfoldable pub deletes_of : String → List String → List Row → Result ErasureError (List DeleteOp)
  unfolding bronze_deletes record_deletes
  deletes_of person_id psr_ids psrs =
      let clause = join ("person_id = " ∷ quoted person_id ∷ []) in
      do
        bronze ← bronze_deletes psrs
        ok (
            bronze
            ++ (record_deletes person_id psr_ids
                ++ record {
                  table = "silver.person_connection";
                  filter = join (
                      "person_a_id = "
                      ∷ quoted person_id
                      ∷ " OR person_b_id = "
                      ∷ quoted person_id
                      ∷ []);
                }
                  ∷ record { table = "gold.person_features"; filter = clause }
                  ∷ record { table = "gold.venture_member"; filter = clause }
                  ∷ []))

  created_at : Option String → ℕ → Result ErasureError ℕ
  created_at none now = ok now
  created_at (some text) now = elim (py.fromisoformat text) [
    | some t ↦ ok t
    | none ↦ err (bad_timestamp text)
  ]

  -- The row of an erased person: no column says who it was.
  unfoldable pub tombstone : Row → ℕ → Result ErasureError Row
  unfolding created_at
  tombstone person_row now = do
    created ← created_at (get_str person_row "created_at") now
    ok (
        ("person_id", str (column_text py.show_value person_row "person_id"))
        ∷ ("full_name", null)
        ∷ ("display_name", null)
        ∷ ("primary_email", null)
        ∷ ("emails", json_list [])
        ∷ ("github_login", null)
        ∷ ("orcid", null)
        ∷ ("website_url", null)
        ∷ ("linkedin_url", null)
        ∷ ("cv_url", null)
        ∷ ("twitter_handle", null)
        ∷ ("affiliation", null)
        ∷ ("location", null)
        ∷ ("country_code", null)
        ∷ ("headline", null)
        ∷ ("avatar_url", null)
        ∷ ("data_quality_score", null)
        ∷ ("status", str "erased")
        ∷ ("merged_into_person_id", null)
        ∷ ("created_at", datetime created)
        ∷ ("updated_at", datetime now)
        ∷ [])

  is_of_person : List String → String → Row → Bool
  is_of_person psr_ids person_id row =
      contains (column_text py.show_value row "source_record_id") psr_ids
      || (column_is row "person_id" person_id
          || (column_is row "person_a_id" person_id
              || (column_is row "person_b_id" person_id
                  || column_is row "candidate_person_id" person_id)))

  unfoldable pub row_count : Tables → String → List String → String → ℕ
  unfolding is_of_person
  row_count tables table psr_ids person_id =
      let rows = rows_of tables table in
      if starts_with table "bronze."
      then length rows
      else length (select (is_of_person psr_ids person_id) rows)

  -- The records of the links, in the order of their ids when they are written as suppressed.
  unfoldable pub person_psrs : Tables → List String → List Row
  person_psrs tables psr_ids =
      select (λ row. contains (column_text py.show_value row "source_record_id") psr_ids)
        (rows_of tables "silver.person_source_record")

  abbrev by_record : Row → Row → Bool
  by_record a b =
      str_lt (column_text py.show_value a "source_record_id")
        (column_text py.show_value b "source_record_id")

  suppression_row : ℕ → Row → Row
  suppression_row now row =
      ("source", str (column_text py.show_value row "source"))
      ∷ ("source_key_hash", str (py.sha256 (column_text py.show_value row "source_key")))
      ∷ ("created_at", datetime now)
      ∷ []

  unfoldable pub suppression_rows : ℕ → List Row → List Row
  unfolding suppression_row
  suppression_rows now psrs = map (suppression_row now) (sort_by by_record psrs)

  notes : Option String → Json
  notes (some url) = str (join ("purge CV file from UC Volume: " ∷ url ∷ []))
  notes none = null

  erasure_log :
      Tables → String → String → String → String → ℕ → List String → List DeleteOp → Row → Row
  unfolding row_count notes
  erasure_log tables person_id scope actor erasure_id now psr_ids deletes person_row =
      ("erasure_id", str erasure_id)
      ∷ ("person_id", str person_id)
      ∷ ("requested_at", datetime now)
      ∷ ("requester_hash", null)
      ∷ ("scope", str scope)
      ∷ ("executed_at", datetime now)
      ∷ ("executed_by", str actor)
      ∷ (
        "rows_deleted",
        json_dict (
            map
              (λ (op : DeleteOp).
                (op.table, int (pos (row_count tables op.table psr_ids person_id))))
              deletes),
      )
      ∷ ("vacuum_after", null)
      ∷ ("notes", notes (get_str person_row "cv_url"))
      ∷ []

  planned :
      String → Tables → String → ℕ → String → String → Option Row → Result ErasureError ErasurePlan
  unfolding tombstone deletes_of suppression_rows erasure_log
  planned person_id tables scope now actor erasure_id none = err (unknown_person person_id)
  planned person_id tables scope now actor erasure_id (some person_row) =
      let psr_ids = linked_ids (person_links tables person_id) in
      let psrs = person_psrs tables psr_ids in
      do
        deletes ← deletes_of person_id psr_ids psrs
        stone ← tombstone person_row now
        ok (record {
          person_id = person_id;
          erasure_id = erasure_id;
          deletes = deletes;
          upserts =
              ("silver.person", stone ∷ [])
              ∷ (
                "ops.erasure_log",
                erasure_log tables person_id scope actor erasure_id now psr_ids deletes person_row
                    ∷ [],
              )
              ∷ ("ops.erasure_suppression", suppression_rows now psrs)
              ∷ [];
        })

  unfoldable pub plan_erasure :
      String → Tables → String → ℕ → String → String → Result ErasureError ErasurePlan
  unfolding planned
  plan_erasure person_id tables scope now actor erasure_id =
      planned person_id tables scope now actor erasure_id
        (find (λ row. column_is row "person_id" person_id) (rows_of tables "silver.person"))

-- The statements that `execute` runs, in order, up to a name that is no identifier, and whether the upserts follow.
statements : String → List DeleteOp → List String × Result UnsafeIdentifierError (Unit {0})
unfolding require_identifier
statements catalog [] = ([], ok tt)
statements catalog (op ∷ ops) =
    let (rest, end) = statements catalog ops in
    elim (require_identifier op.table)
      as (λ _. List String × Result UnsafeIdentifierError (Unit {0})) [
        | err e ↦ ([], err e)
        | ok table ↦
            (join ("DELETE FROM " ∷ catalog ∷ "." ∷ table ∷ " WHERE " ∷ op.filter ∷ []) ∷ rest, end)
      ]

unfoldable pub execute :
    ErasurePlan → String → List String × Result UnsafeIdentifierError (Unit {0})
unfolding statements
execute plan catalog =
    elim (require_identifier catalog)
      as (λ _. List String × Result UnsafeIdentifierError (Unit {0})) [
        | err e ↦ ([], err e)
        | ok safe_catalog ↦ statements safe_catalog plan.deletes
      ]
