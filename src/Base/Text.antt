-- ===== src/Base/Text.antt =====
-- Texts put together, as an f-string or `"".join` does.
use Prim.Native.Char.{code}
use Prim.Native.String.{String, ◌++◌}
use mathlib.Core.Bool.{Bool, true, false, ◌&&◌}
use mathlib.Core.List.{List, [], ◌∷◌}
use mathlib.Core.Option.{Option, none, some}
use text.Mathlib.Text.{◌==◌}
use hacknation_hackathon.Base.Tests.{eqb, ltb, if◌then◌else◌}

abbrev pub join : List String → String
join [] = ""
join (s ∷ []) = s
join (s ∷ t ∷ rest) = s ++ join (t ∷ rest)

-- `text or default`: None and the empty text are false.
abbrev pub or_text : Option String → String → String
or_text none d = d
or_text (some s) d = if s == "" then d else s

-- `text.startswith(prefix)`
abbrev pub starts_with : String → String → Bool
starts_with text String.[] = true
starts_with String.[] (String.◌∷◌ p ps) = false
starts_with (String.◌∷◌ c cs) (String.◌∷◌ p ps) = eqb (code c) (code p) && starts_with cs ps

-- `text[len(prefix):]`
abbrev pub drop_text : String → String → String
drop_text String.[] text = text
drop_text (String.◌∷◌ p ps) String.[] = String.[]
drop_text (String.◌∷◌ p ps) (String.◌∷◌ c cs) = drop_text ps cs

-- `text.isascii()`
abbrev pub is_ascii : String → Bool
is_ascii String.[] = true
is_ascii (String.◌∷◌ c cs) = ltb (code c) 128 && is_ascii cs
