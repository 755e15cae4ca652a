-- ===== src/Er/Rules.antt =====
-- er/rules.py, stage 2: the deterministic match rules D1 to D8 over pairs of records.
pub mod Pairs
pub mod Reasons
use Prim.Native.Char.{code}
use hacknation_hackathon.Base.{
  ℕ, String, Bool, true, false, not, ◌&&◌, ◌||◌, Option, none, some, List, [], ◌∷◌, ◌++◌, ◌==◌, eqb,
  contains, select, head?, if◌then◌else◌,
}
use hacknation_hackathon.Base.Dict.{Dict, get, insert}
use hacknation_hackathon.Base.Float.{Float, float_lt, float_le}
use hacknation_hackathon.Base.Sort.{sort_by, sorted, str_lt}
use hacknation_hackathon.Base.Text.{join}
use hacknation_hackathon.Json.{str, float, Row}
use hacknation_hackathon.Tools.Norm.{Unicode, url_norm}
use hacknation_hackathon.Er.Models.{
  PsrView, RuleMatch, Method, det_orcid, det_email, det_website, det_handle, det_linkedin,
  det_crosslink, det_hn_repo, det_name_org,
}
use hacknation_hackathon.Er.Crosslinks.{Pair, PairDict, ordered}

-- What the rules call: Unicode, rapidfuzz's JaroWinkler.similarity and `round` to two places.
pub record Scoring : Type 0 where
  pub unicode : Unicode
  pub jaro_winkler : String → String → Float
  pub round2 : Float → Float

-- NAME_JW_THRESHOLD (0.92) and NAME_JW_D8 (0.90)
abbrev pub name_jw_threshold : Float
name_jw_threshold = record { bits = 0x3fed70a3d70a3d71 }

abbrev pub name_jw_d8 : Float
name_jw_d8 = record { bits = 0x3feccccccccccccd }

-- `a is not None and a == b`
abbrev pub agree : Option String → Option String → Option String
agree (some a) (some b) = if a == b then some a else none
agree (some a) none = none
agree none b = none

-- `text.replace(" ", "")`
abbrev without_spaces : String → String
without_spaces String.[] = ""
without_spaces (String.◌∷◌ c s) =
    let rest = without_spaces s in if eqb (code c) 32 then rest else String.◌∷◌ c rest

-- The match of a rule on two records, with the ids in order.
abbrev pub match_of : PsrView → PsrView → String → Method → ℕ → Bool → Row → RuleMatch
match_of a b rule method confidence auto evidence =
    let (left, right) = ordered a.source_record_id b.source_record_id in
    record {
      left = left;
      right = right;
      rule = rule;
      method = method;
      confidence = record { bits = confidence };
      auto = auto;
      evidence = ("rule", str rule) ∷ evidence;
    }

abbrev pub listed : Option RuleMatch → List RuleMatch
listed none = []
listed (some m) = m ∷ []

-- `sorted(set(a) & set(b))[0]`
abbrev pub shared_email : PsrView → PsrView → Option String
shared_email a b = head? (sorted (select (λ e. contains e b.email_norms) a.email_norms))

unfoldable pub d1 : PsrView → PsrView → Option RuleMatch
d1 a b = elim (agree a.orcid b.orcid) [
  | some orcid ↦
      some (match_of a b "D1" det_orcid 0x3fefae147ae147ae true (("orcid", str orcid) ∷ []))
  | none ↦ none
]

unfoldable pub d2 : PsrView → PsrView → Option RuleMatch
d2 a b = elim (shared_email a b) [
  | some email ↦
      some (match_of a b "D2" det_email 0x3fef5c28f5c28f5c true (("email", str email) ∷ []))
  | none ↦ none
]

unfoldable pub d3 : PsrView → PsrView → Option RuleMatch
d3 a b = elim (agree a.website_url_norm b.website_url_norm) [
  | some website ↦
      some (match_of a b "D3" det_website 0x3fee666666666666 true (("website", str website) ∷ []))
  | none ↦ none
]

-- `_name_rules`: below the automatic floor.
unfoldable pub d6 : PsrView → PsrView → Option RuleMatch
d6 a b = elim (agree a.name_norm b.name_norm) [
  | none ↦ none
  | some name ↦ elim (agree a.org_norm b.org_norm) [
    | none ↦ none
    | some org ↦ some (
        match_of a b "D6" det_name_org 0x3feb333333333333 false
          (("name_norm", str name) ∷ ("org_norm", str org) ∷ []))
  ]
]

module _ (lib : Scoring) where
  -- One side's login is the other side's name without spaces.
  login_is_name : Option String → Option String → Bool
  login_is_name (some login) (some name) = lib.unicode.lower login == without_spaces name
  login_is_name (some login) none = false
  login_is_name none name = false

  unfoldable pub login_matches_name : PsrView → PsrView → Bool
  unfolding login_is_name
  login_matches_name a b =
      login_is_name a.github_login b.name_norm || login_is_name b.github_login a.name_norm

  url_is_login : Option String → Option String → Bool
  url_is_login (some login) (some website) =
      website == join ("github.com/" ∷ lib.unicode.lower login ∷ [])
  url_is_login (some login) none = false
  url_is_login none website = false

  unfoldable pub github_url_on_record : PsrView → PsrView → Bool
  unfolding url_is_login
  github_url_on_record a b =
      url_is_login a.github_login b.website_url_norm
      || url_is_login b.github_login a.website_url_norm

  unfoldable pub name_jw : PsrView → PsrView → Float
  name_jw a b = elim a.name_norm [
    | none ↦ record { bits = 0 }
    | some m ↦ elim b.name_norm [ none ↦ record { bits = 0 } | some n ↦ lib.jaro_winkler m n ]
  ]

  unfoldable pub linkedin_norm : Option String → Option String
  linkedin_norm none = none
  linkedin_norm (some url) = elim (url_norm lib.unicode url) [
    | some n ↦ some (lib.unicode.lower n)
    | none ↦ none
  ]

  unfoldable pub d7 : PsrView → PsrView → Option RuleMatch
  d7 a b = elim (agree (linkedin_norm a.linkedin_url) (linkedin_norm b.linkedin_url)) [
    | some url ↦
        some (match_of a b "D7" det_linkedin 0x3fef0a3d70a3d70a true (("linkedin", str url) ∷ []))
    | none ↦ none
  ]

  -- A shared handle, or a GitHub URL on one record that names the login of the other.
  unfoldable pub d4 : PsrView → PsrView → Option RuleMatch
  d4 a b = elim (agree a.twitter_handle b.twitter_handle) [
    | some handle ↦
        some (match_of a b "D4" det_handle 0x3fee666666666666 true (("handle", str handle) ∷ []))
    | none ↦
        if github_url_on_record a b
        then some (
            match_of a b "D4" det_handle 0x3fee666666666666 true
              (("handle", str "github url on record") ∷ []))
        else none
  ]

  unfoldable pub identifier_matches : PsrView → PsrView → List RuleMatch
  unfolding d1 d2 d3 d4 d7
  identifier_matches a b =
      listed (d1 a b)
      ++ (listed (d2 a b) ++ (listed (d3 a b) ++ (listed (d4 a b) ++ listed (d7 a b))))

  unfoldable pub pair_matches : PsrView → PsrView → List RuleMatch
  unfolding identifier_matches d6
  pair_matches a b = identifier_matches a b ++ listed (d6 a b)

  against : PsrView → List PsrView → List RuleMatch
  unfolding pair_matches
  against a [] = []
  against a (b ∷ bs) = pair_matches a b ++ against a bs

  -- Every pair of records, once.
  unfoldable pub all_pairs : List PsrView → List RuleMatch
  unfolding against
  all_pairs [] = []
  all_pairs (a ∷ views) = against a views ++ all_pairs views

  -- The match of a candidate pair, whose ids are given in order.
  abbrev candidate_match : Pair → String → Method → ℕ → Row → RuleMatch
  candidate_match (left, right) rule method confidence evidence = record {
    left = left;
    right = right;
    rule = rule;
    method = method;
    confidence = record { bits = confidence };
    auto = true;
    evidence = ("rule", str rule) ∷ evidence;
  }

  unfoldable pub d5 : Pair → String → PsrView → PsrView → Option RuleMatch
  d5 pair description a b =
      if float_le name_jw_threshold (name_jw a b) || login_matches_name a b
      then some (
          candidate_match pair "D5" det_crosslink 0x3fed70a3d70a3d71
            (("crosslink", str description) ∷ ("name_jw", float (lib.round2 (name_jw a b))) ∷ []))
      else none

  unfoldable pub d8 : Pair → String → PsrView → PsrView → Option RuleMatch
  d8 pair url a b =
      if float_lt (name_jw a b) name_jw_d8
      then none
      else some (
          candidate_match pair "D8" det_hn_repo 0x3feccccccccccccd
            (("github_url", str url) ∷ ("name_jw", float (lib.round2 (name_jw a b))) ∷ []))

  -- A rule on the candidate pairs whose two records are known.
  both : (PsrView → PsrView → Option RuleMatch) → Option PsrView → Option PsrView → List RuleMatch
  both rule (some a) (some b) = listed (rule a b)
  both rule (some a) none = []
  both rule none b = []

  unfoldable pub candidate_matches :
      (Pair → String → PsrView → PsrView → Option RuleMatch)
      → Dict PsrView
      → PairDict
      → List RuleMatch
  unfolding both
  candidate_matches rule by_id [] = []
  candidate_matches rule by_id ((pair, text) ∷ pairs) =
      both (rule pair text) (get by_id pair.0) (get by_id pair.1)
      ++ candidate_matches rule by_id pairs

  abbrev pair_lt : Pair × String → Pair × String → Bool
  pair_lt ((a, b), s) ((c, d), t) = str_lt a c || (a == c && (str_lt b d || (b == d && str_lt s t)))

  abbrev by_ids : List PsrView → Dict PsrView → Dict PsrView
  by_ids [] d = d
  by_ids (v ∷ vs) d = by_ids vs (insert v.source_record_id v d)

  abbrev pub by_record_id : List PsrView → List PsrView
  by_record_id = sort_by (λ a b. str_lt a.source_record_id b.source_record_id)

  unfoldable pub deterministic_matches : List PsrView → PairDict → List RuleMatch
  unfolding all_pairs candidate_matches d5
  deterministic_matches views candidates =
      let ordered_views = by_record_id views in
      all_pairs ordered_views
      ++ candidate_matches d5 (by_ids ordered_views []) (sort_by pair_lt candidates)

  unfoldable pub hacknation_matches : Dict PsrView → PairDict → List RuleMatch
  unfolding candidate_matches d8
  hacknation_matches views candidates = candidate_matches d8 views (sort_by pair_lt candidates)
