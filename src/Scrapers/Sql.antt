-- ===== src/Scrapers/Sql.antt =====
-- What keeps values out of SQL syntax: `require_identifier` of scrapers/common/state.py, and the
-- doubling of quotes, `value.replace("'", "''")`, of er/unmerge.py and scrapers/common/state.py.
use Prim.Native.Char.{Char, code}
use hacknation_hackathon.Base.{
  ℕ, String, Bool, true, false, ◌&&◌, ◌||◌, eqb, leb, if◌then◌else◌, Result, ok, err,
}

-- The exception of a name that is no identifier.
pub data UnsafeIdentifierError : Type 0 where
  unsafe_identifier : String → UnsafeIdentifierError

-- `[A-Za-z0-9_.]`
is_identifier_char : ℕ → Bool
is_identifier_char c =
    (leb b'A' c && leb c b'Z')
    || (leb b'a' c && leb c b'z')
    || (leb b'0' c && leb c b'9')
    || eqb c b'_'
    || eqb c b'.'

all_identifier : String → Bool
unfolding is_identifier_char
all_identifier String.[] = true
all_identifier (String.◌∷◌ c s) = is_identifier_char (code c) && all_identifier s

is_identifier : String → Bool
unfolding all_identifier
is_identifier String.[] = false
is_identifier (String.◌∷◌ c s) = all_identifier (String.◌∷◌ c s)

unfoldable pub require_identifier : String → Result UnsafeIdentifierError String
unfolding is_identifier
require_identifier name = if is_identifier name then ok name else err (unsafe_identifier name)

abbrev pub quote : ℕ
quote = 39

abbrev pub is_quote : Char → Bool
is_quote c = eqb (code c) quote

-- `value.replace("'", "''")`
unfoldable pub escape : String → String
escape String.[] = String.[]
escape (String.◌∷◌ c s) =
    let rest = escape s in
    if is_quote c then String.◌∷◌ c (String.◌∷◌ c rest) else String.◌∷◌ c rest
