-- ===== src/App/Store.antt =====
-- app/store.py: FixtureStore, the tables of the fixture files under an overlay of writes. The files
-- are an argument: they are read once and never written.
pub mod Backing
pub mod Overlay
pub mod Refines
mod Tests
use hacknation_hackathon.Base.{
  ℕ, String, Bool, true, false, not, ◌&&◌, ◌||◌, Option, none, some, List, [], ◌∷◌, ◌++◌, map, ◌==◌,
  contains, or_else, Result, ok, err, if◌then◌else◌,
}
use hacknation_hackathon.Base.Dict.{Dict, get, insert}
use hacknation_hackathon.Json.{
  Json, null, bool, int, float, str, datetime, arr, obj, Items, nil, cons, Fields, end, field, Row,
  read,
}

abbrev pub view_ranked_ventures : String
view_ranked_ventures = "gold.v_ranked_ventures"

abbrev pub view_venture_team : String
view_venture_team = "gold.v_venture_team"

pub data StoreError : Type 0 where
  view_not_writable unknown_table : String → StoreError

-- The values of the primary key of a row, as texts.
abbrev pub Key : Type 0
Key = List String

abbrev pub key_eq : Key → Key → Bool
key_eq [] [] = true
key_eq (a ∷ as') (b ∷ bs) = a == b && key_eq as' bs
key_eq [] (b ∷ bs) = false
key_eq (a ∷ as') [] = false

abbrev pub Bucket : Type 0
Bucket = List (Key × Row)

-- `bucket.get(key)`
unfoldable pub lookup : Key → Bucket → Option Row
lookup key [] = none
lookup key ((k, row) ∷ bucket) = if key_eq k key then some row else lookup key bucket

-- `bucket[key] = row`
unfoldable pub put : Key → Row → Bucket → Bucket
put key row [] = (key, row) ∷ []
put key row ((k, old) ∷ bucket) =
    if key_eq k key then (k, row) ∷ bucket else (k, old) ∷ put key row bucket

-- The fixture files, the tables of the registry with the primary key of each, and the texts that Python gives values.
pub record Fixtures : Type 0 where
  pub load_table : String → List Row
  pub is_known : String → Bool
  pub primary_key : String → List String
  pub isoformat : ℕ → String
  pub text_of : Json → String
  pub canonical_json : Row → String

-- The overlay, by table.
abbrev pub Overlay : Type 0
Overlay = Dict Bucket

module _ (fx : Fixtures) where
  unfoldable mutual
    pub to_json_value : Json → Json
    to_json_value (datetime t) = str (fx.isoformat t)
    to_json_value (arr xs) = arr (item_values xs)
    to_json_value (obj fs) = obj (field_values fs)
    to_json_value (str s) = str s
    to_json_value (bool b) = bool b
    to_json_value (int n) = int n
    to_json_value (float x) = float x
    to_json_value null = null

    pub item_values : Items → Items
    item_values nil = nil
    item_values (cons x xs) = cons (to_json_value x) (item_values xs)

    pub field_values : Fields → Fields
    field_values end = end
    field_values (field k v fs) = field k (to_json_value v) (field_values fs)

  abbrev pub plain : Row → Row
  plain [] = []
  plain ((k, v) ∷ row) = (k, to_json_value v) ∷ plain row

  -- `str(row.get(key))`, `str` of a text being itself
  abbrev key_text : Row → String → String
  key_text row key = read (λ j. elim j [ str s ↦ s | other ↦ fx.text_of other ]) (get row key)

  abbrev key_texts : Row → List String → Key
  key_texts row [] = []
  key_texts row (k ∷ ks) = key_text row k ∷ key_texts row ks

  unfoldable pub row_key : Row → List String → Key
  row_key row [] = fx.canonical_json row ∷ []
  row_key row (k ∷ ks) = key_texts row (k ∷ ks)

  abbrev bucket_of : Overlay → String → Bucket
  bucket_of overlay table = or_else (get overlay table) []

  abbrev put_all : List String → List Row → Bucket → Bucket
  put_all keys [] bucket = bucket
  put_all keys (row ∷ rows) bucket =
      put_all keys rows (put (row_key (plain row) keys) (plain row) bucket)

  -- What a write to the table raises before it merges.
  unfoldable pub refusal : String → Option StoreError
  refusal table =
      if table == view_ranked_ventures || table == view_venture_team
      then some (view_not_writable table)
      else (if fx.is_known table then none else some (unknown_table table))

  unfoldable pub upsert : String → List Row → Overlay → Result StoreError Overlay
  unfolding refusal
  upsert table rows overlay = elim (refusal table) [
    | some refused ↦ err refused
    | none ↦
        ok (insert table (put_all (fx.primary_key table) rows (bucket_of overlay table)) overlay)
  ]

  -- The rows of the file, each as the overlay has it.
  abbrev pub overlaid : List String → Bucket → List Row → List Row
  overlaid keys bucket [] = []
  overlaid keys bucket (row ∷ rows) =
      or_else (lookup (row_key row keys) bucket) row ∷ overlaid keys bucket rows

  abbrev pub seen : List String → Key → List Row → Bool
  seen keys key [] = false
  seen keys key (row ∷ rows) = key_eq (row_key row keys) key || seen keys key rows

  -- The rows of the overlay whose key no row of the file has.
  abbrev pub added : List String → List Row → Bucket → List Row
  added keys base [] = []
  added keys base ((key, row) ∷ bucket) =
      let rest = added keys base bucket in if seen keys key base then rest else row ∷ rest

  -- The rows of a table of the registry.
  unfoldable pub table_rows : String → Overlay → List Row
  table_rows table overlay =
      let keys = fx.primary_key table in
      let bucket = bucket_of overlay table in
      overlaid keys bucket (fx.load_table table) ++ added keys (fx.load_table table) bucket

  -- `_table_rows`
  unfoldable pub read_table : String → Overlay → Result StoreError (List Row)
  unfolding table_rows
  read_table table overlay =
      if fx.is_known table then ok (table_rows table overlay) else err (unknown_table table)
