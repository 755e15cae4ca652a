-- ===== src/Json.antt =====
-- The value shapes of contracts/models.py (`Json`, `SinkValue`, `SinkRow`) and their typed readers of
-- scrapers/common/jsonutil.py and scoring/snapshot.py. `SinkValue` is `Json` with temporals, so one
-- type serves for both and `as_sink`, a cast, is the identity. A timestamp is its number of
-- microseconds since 1970-01-01 in UTC.
use hacknation_hackathon.Base.{
  ℕ, String, Bool, Option, none, some, List, [], ◌∷◌, ◌≡◌, refl, Result, or_raise,
}
use hacknation_hackathon.Base.Dict.{Dict, get}
use hacknation_hackathon.Base.Float.{Float}
use hacknation_hackathon.Base.Int.{ℤ}

mutual
  pub data Json : Type 0 where
    null : Json
    bool : Bool → Json
    int : ℤ → Json
    float : Float → Json
    str : String → Json
    datetime : ℕ → Json
    arr : Items → Json
    obj : Fields → Json

  pub data Items : Type 0 where
    nil : Items
    cons : Json → Items → Items

  pub data Fields : Type 0 where
    end : Fields
    field : String → Json → Fields → Fields

abbrev pub Row : Type 0
Row = Dict Json

abbrev pub items : Items → List Json
items nil = []
items (cons x xs) = x ∷ items xs

abbrev pub entries : Fields → Row
entries end = []
entries (field k v fs) = (k, v) ∷ entries fs

abbrev pub to_items : List Json → Items
to_items [] = nil
to_items (x ∷ xs) = cons x (to_items xs)

abbrev pub to_fields : Row → Fields
to_fields [] = end
to_fields ((k, v) ∷ r) = field k v (to_fields r)

-- A text that may be None.
abbrev pub nullable : Option String → Json
nullable (some s) = str s
nullable none = null

-- A list and a dict as values.
abbrev pub json_list : List Json → Json
json_list xs = arr (to_items xs)

abbrev pub json_dict : Row → Json
json_dict r = obj (to_fields r)

abbrev pub as_mapping : Json → Row
as_mapping (obj fs) = entries fs
as_mapping _ = []

abbrev pub as_list : Json → List Json
as_list (arr xs) = items xs
as_list _ = []

-- `isinstance(value, str)`
abbrev pub as_str : Json → Option String
as_str (str s) = some s
as_str _ = none

abbrev pub as_bool : Json → Option Bool
as_bool (bool b) = some b
as_bool _ = none

abbrev pub as_int : Json → Option ℤ
as_int (int n) = some n
as_int _ = none

-- A reader of a field that may be absent: `mapping.get(key)` is None then.
abbrev pub read {ℓ} : {A : Type ℓ} → (Json → A) → Option Json → A
read f none = f null
read f (some v) = f v

abbrev pub get_str : Row → String → Option String
get_str r k = read as_str (get r k)

abbrev pub get_bool : Row → String → Option Bool
get_bool r k = read as_bool (get r k)

abbrev pub get_int : Row → String → Option ℤ
get_int r k = read as_int (get r k)

abbrev pub get_map : Row → String → Row
get_map r k = read as_mapping (get r k)

abbrev pub get_list : Row → String → List Json
get_list r k = read as_list (get r k)

-- The KeyError of a mandatory field, with the field's name.
pub data MissingFieldError : Type 0 where
  missing_field : String → MissingFieldError

abbrev pub require_str : Row → String → Result MissingFieldError String
require_str r k = or_raise (get_str r k) (missing_field k)

-- `float(n)` of an integer belongs to the interpreter.
module _ (of_int : ℤ → Float) where
  abbrev pub as_float : Json → Option Float
  as_float (int n) = some (of_int n)
  as_float (float x) = some x
  as_float _ = none

  abbrev pub get_float : Row → String → Option Float
  get_float r k = read as_float (get r k)

-- A list or a dict that is put into a value is read back from it.
pub items-to_items : (xs : List Json) → items (to_items xs) ≡ xs
items-to_items [] = refl
items-to_items (x ∷ xs) = λ i. x ∷ items-to_items xs i

pub entries-to_fields : (r : Row) → entries (to_fields r) ≡ r
entries-to_fields [] = refl
entries-to_fields ((k, v) ∷ r) = λ i. (k, v) ∷ entries-to_fields r i
