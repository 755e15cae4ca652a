-- ===== src/Tools/Norm.antt =====
-- tools/norm.py: the normalizers that feed entity resolution. Unicode is the interpreter's: stripping,
-- lowering, the decomposition and its marks, and what is whitespace.
use Prim.Native.Char.{Char, code}
use hacknation_hackathon.Base.{
  ℕ, suc, ◌+◌, String, Bool, not, ◌&&◌, ◌||◌, Option, none, some, List, [], ◌∷◌, ◌==◌, eqb, select,
  contains, if◌then◌else◌,
}
use hacknation_hackathon.Base.Text.{join, starts_with, drop_text}

pub record Unicode : Type 0 where
  pub strip : String → String
  pub lower : String → String
  -- `unicodedata.normalize("NFKD", text)`
  pub nfkd : String → String
  pub is_combining : ℕ → Bool
  pub is_space : ℕ → Bool

abbrev pub titles : List String
titles =
    "dr" ∷ "prof" ∷ "professor" ∷ "phd" ∷ "md" ∷ "msc" ∷ "bsc" ∷ "ing" ∷ "mr" ∷ "mrs" ∷ "ms" ∷ []

abbrev pub generic_inboxes : List String
generic_inboxes =
    "admin" ∷ "contact" ∷ "hello" ∷ "info" ∷ "mail" ∷ "no-reply" ∷ "noreply" ∷ "office" ∷ "sales"
    ∷ "support" ∷ "team" ∷ "webmaster" ∷ []

abbrev pub noreply_domain : String
noreply_domain = "users.noreply.github.com"

abbrev pub legal_suffixes : List String
legal_suffixes =
    "ag" ∷ "gmbh" ∷ "sa" ∷ "sarl" ∷ "inc" ∷ "llc" ∷ "ltd" ∷ "se" ∷ "kg" ∷ "co" ∷ "corp" ∷ "plc" ∷ []

-- The text before the first character `c`, and the text after it.
unfoldable pub before : ℕ → String → String
before c String.[] = ""
before c (String.◌∷◌ x xs) = if eqb (code x) c then "" else String.◌∷◌ x (before c xs)

unfoldable pub after : ℕ → String → String
after c String.[] = ""
after c (String.◌∷◌ x xs) = if eqb (code x) c then xs else after c xs

-- How often a character occurs.
unfoldable pub count_char : ℕ → String → ℕ
count_char c String.[] = 0
count_char c (String.◌∷◌ x xs) = let n = count_char c xs in if eqb (code x) c then suc n else n

-- `text.rstrip(c)`
unfoldable pub rstrip : ℕ → String → String
rstrip c String.[] = ""
rstrip c (String.◌∷◌ x xs) =
    let rest = rstrip c xs in if eqb (code x) c && rest == "" then "" else String.◌∷◌ x rest

-- A scheme `http://` or `https://` at the start, in any case: the long s matches an s there.
is_letter : ℕ → Char → Bool
is_letter c x = eqb (code x) c || eqb (code x + 32) c || (eqb c 115 && eqb (code x) 383)

drop_slashes : String → String → String
drop_slashes url (String.◌∷◌ a (String.◌∷◌ b (String.◌∷◌ c rest))) =
    if eqb (code a) 58 && eqb (code b) 47 && eqb (code c) 47 then rest else url
drop_slashes url _ = url

drop_s : String → String → String
unfolding drop_slashes is_letter
drop_s url (String.◌∷◌ s rest) =
    if is_letter 115 s then drop_slashes url rest else drop_slashes url (String.◌∷◌ s rest)
drop_s url String.[] = url

unfoldable pub drop_scheme : String → String
unfolding drop_s is_letter
drop_scheme (String.◌∷◌ h (String.◌∷◌ t (String.◌∷◌ u (String.◌∷◌ p rest)))) =
    let url = String.◌∷◌ h (String.◌∷◌ t (String.◌∷◌ u (String.◌∷◌ p rest))) in
    if is_letter 104 h && is_letter 116 t && is_letter 116 u && is_letter 112 p
    then drop_s url rest
    else url
drop_scheme url = url

-- `text.removeprefix(prefix)`
abbrev remove_prefix : String → String → String
remove_prefix prefix text = if starts_with text prefix then drop_text prefix text else text

module _ (u : Unicode) where
  host_and_path : String → String → Option String
  unfolding rstrip
  host_and_path host path =
      if host == ""
      then none
      else some (rstrip 47 (if path == "" then host else join (host ∷ "/" ∷ path ∷ [])))

  unfoldable pub url_norm : String → Option String
  unfolding host_and_path drop_scheme before after
  url_norm url =
      let stripped = u.strip url in
      if stripped == ""
      then none
      else (let bare = before 63 (before 35 (drop_scheme stripped)) in
          host_and_path (remove_prefix "www." (u.lower (before 47 bare))) (after 47 bare))

  identifying : String → String → String → Option String
  identifying lowered local domain =
      if local == "" || domain == "" || domain == noreply_domain || contains local generic_inboxes
      then none
      else some lowered

  unfoldable pub email_norm : String → Option String
  unfolding identifying before after count_char
  email_norm email =
      let lowered = u.lower (u.strip email) in
      if eqb (count_char 64 lowered) 1
      then identifying lowered (before 64 lowered) (after 64 lowered)
      else none

  -- The part after the @ of a normalized address.
  unfoldable pub email_domain : String → Option String
  unfolding email_norm after
  email_domain email = elim (email_norm email) [
    | some lowered ↦ some (after 64 lowered)
    | none ↦ none
  ]

  -- ß is replaced first.
  sharp : String → String
  sharp String.[] = ""
  sharp (String.◌∷◌ x xs) =
      let rest = sharp xs in if eqb (code x) 223 then join ("ss" ∷ rest ∷ []) else String.◌∷◌ x rest

  unmarked : String → String
  unmarked String.[] = ""
  unmarked (String.◌∷◌ x xs) =
      let rest = unmarked xs in if u.is_combining (code x) then rest else String.◌∷◌ x rest

  strip_diacritics : String → String
  unfolding sharp unmarked
  strip_diacritics text = unmarked (u.nfkd (sharp text))

  -- [.,;:!?'"()\[\]]
  is_punctuation : ℕ → Bool
  is_punctuation c =
      eqb c 46
      || eqb c 44
      || eqb c 59
      || eqb c 58
      || eqb c 33
      || eqb c 63
      || eqb c 39
      || eqb c 34
      || eqb c 40
      || eqb c 41
      || eqb c 91
      || eqb c 93

  push_word : String × List String → List String
  push_word (word, rest) = if word == "" then rest else word ∷ rest

  -- The word at the start of a text, and the words after it.
  split_word : String → String × List String
  unfolding is_punctuation push_word
  split_word String.[] = ("", [])
  split_word (String.◌∷◌ x xs) =
      let (word, rest) = split_word xs in
      if is_punctuation (code x) || u.is_space (code x)
      then ("", push_word (word, rest))
      else (String.◌∷◌ x word, rest)

  unfoldable pub words : String → List String
  unfolding split_word push_word
  words text = push_word (split_word text)

  spaced : List String → String
  spaced [] = ""
  spaced (w ∷ []) = w
  spaced (w ∷ v ∷ ws) = join (w ∷ " " ∷ spaced (v ∷ ws) ∷ [])

  unfoldable pub name_norm : String → String
  unfolding strip_diacritics words spaced
  name_norm full_name =
      spaced (select (λ t. not (contains t titles)) (words (u.lower (strip_diacritics full_name))))

  -- `while tokens and tokens[-1] in _LEGAL_SUFFIXES: tokens.pop()`
  unfoldable pub drop_suffixes : List String → List String
  drop_suffixes [] = []
  drop_suffixes (t ∷ ts) = drop_one t (drop_suffixes ts)
    where
      drop_one : String → List String → List String
      drop_one t [] = if contains t legal_suffixes then [] else t ∷ []
      drop_one t (s ∷ ss) = t ∷ s ∷ ss

  unfoldable pub org_key : String → String
  unfolding strip_diacritics words spaced drop_suffixes
  org_key org = spaced (drop_suffixes (words (u.lower (strip_diacritics org))))
