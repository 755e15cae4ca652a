-- ===== src/Er/Adjudicate.antt =====
-- er/adjudicate.py: the model's verdicts on the pairs of the middle band. The completion client, the clock,
-- uuid5 and the json module are arguments; the clients' state is passed on.
pub mod Settled
use hacknation_hackathon.Base.{
  ℕ, String, Bool, true, false, not, ◌&&◌, ◌||◌, Option, none, some, List, [], ◌∷◌, map, contains,
  any, is_some, or_else, Result, ok, err, or_raise, ◌>>=◌, if◌then◌else◌,
}
use hacknation_hackathon.Base.Dict.{Dict, get}
use hacknation_hackathon.Base.Float.{Float}
use hacknation_hackathon.Base.Sort.{str_lt}
use hacknation_hackathon.Base.Text.{join}
use hacknation_hackathon.Json.{
  nullable, Json, Items, nil, cons, null, str, arr, float, datetime, Row, as_str, as_mapping, items,
  get_str, get_list, json_list, read,
}
use hacknation_hackathon.Er.Models.{PsrView, ScoredPair}

-- LLM_LINK_CONFIDENCE (0.90)
abbrev pub llm_link_confidence : Float
llm_link_confidence = record { bits = 0x3feccccccccccccd }

abbrev pub verdicts : List String
verdicts = "match" ∷ "no_match" ∷ "unsure" ∷ []

-- The reasons of a VerdictSchemaError.
pub data Violation : Type 0 where
  not_an_object bad_verdict bad_rationale bad_fields : Violation

-- What the stage raises: VerdictSchemaError with its pair, or the client's exception.
pub data AdjudicationError (E : Type 0) : Type 0 where
  verdict_schema : String → Violation → AdjudicationError E
  client_raised : E → AdjudicationError E

pub record LlmResponse : Type 0 where
  pub text : String
  pub parsed : Option Row
  pub model : String

-- What the stage calls: `complete` of the client, the clock, uuid5 under the fixed namespace, json.dumps
-- (sorted keys, not ASCII only), json.loads (`none` for a JSONDecodeError) and `str` of a value that is no text.
pub record Services (E S : Type 0) : Type 0 where
  pub complete : String → S → Result E LlmResponse × S
  pub clock : S → ℕ × S
  pub uuid5 : String → String
  pub dumps : Row → String
  pub loads : String → Option Json
  pub show_value : Option Json → String

-- The dict that `_validated` returns.
pub record Evidence : Type 0 where
  pub verdict : String
  pub rationale : String
  pub fields_supporting : List String

abbrev pub evidence_row : Evidence → Row
evidence_row e =
    ("verdict", str e.verdict)
    ∷ ("rationale", str e.rationale)
    ∷ ("fields_supporting", json_list (map str e.fields_supporting))
    ∷ []

pub record Adjudication : Type 0 where
  pub pair_id : String
  pub left : String
  pub right : String
  pub probability : Float
  pub verdict : String
  pub evidence : Row
  pub row : Row

abbrev summary_payload : PsrView → Row
summary_payload view =
    ("full_name", nullable view.full_name)
    ∷ ("name_norm", nullable view.name_norm)
    ∷ ("email_norms", json_list (map str view.email_norms))
    ∷ ("orcid", nullable view.orcid)
    ∷ ("github_login", nullable view.github_login)
    ∷ ("website_url_norm", nullable view.website_url_norm)
    ∷ ("affiliation_raw", nullable view.affiliation_raw)
    ∷ ("org_norm", nullable view.org_norm)
    ∷ ("location_raw", nullable view.location_raw)
    ∷ ("country_code", nullable view.country_code)
    ∷ ("keywords", json_list (map str view.keywords))
    ∷ ("source", str view.source)
    ∷ []

-- A list whose items are all texts.
texts_of : List Json → Option (List String)
texts_of [] = some []
texts_of (x ∷ xs) =
    let rest = texts_of xs in
    elim (as_str x) [ none ↦ none | some s ↦ elim rest [ some ss ↦ some (s ∷ ss) | none ↦ none ] ]

string_list : Option Json → Option (List String)
unfolding texts_of
string_list (some (arr xs)) = texts_of (items xs)
string_list (some _) = none
string_list none = none

module _ {E : Type 0} where
  known_verdict : String → Option String → Result (AdjudicationError E) String
  known_verdict pair (some v) =
      if contains v verdicts then ok v else err (verdict_schema pair bad_verdict)
  known_verdict pair none = err (verdict_schema pair bad_verdict)

  unfoldable pub validated : String → Option Row → Result (AdjudicationError E) Evidence
  unfolding known_verdict string_list
  validated pair none = err (verdict_schema pair not_an_object)
  validated pair (some payload) = do
    verdict ← known_verdict pair (get_str payload "verdict")
    rationale ← or_raise (get_str payload "rationale") (verdict_schema pair bad_rationale)
    fields ←
        or_raise (string_list (get payload "fields_supporting")) (verdict_schema pair bad_fields)
    ok (record { verdict = verdict; rationale = rationale; fields_supporting = fields })

module _ {E S : Type 0} (services : Services E S) where
  -- The two ids are put in order first.
  abbrev pub pair_id : String → String → String
  pair_id a b =
      let (left, right) = if str_lt b a then (b, a) else (a, b) in
      services.uuid5 (join ("adjudication:" ∷ left ∷ "|" ∷ right ∷ []))

  abbrev record_summary : PsrView → String
  record_summary view = services.dumps (summary_payload view)

  unfoldable pub build_prompt : String → PsrView → PsrView → String
  build_prompt pair a b = join (
      "TASK:adjudicate pair="
      ∷ pair
      ∷ "\n"
      ∷ "Same real person? Answer strict JSON "
      ∷ "{\"verdict\":\"match|no_match|unsure\",\"rationale\":\"...\",\"fields_supporting\":[...]}.\n"
      ∷ "Record A: "
      ∷ record_summary a
      ∷ "\n"
      ∷ "Record B: "
      ∷ record_summary b
      ∷ "\n"
      ∷ "Context: A is a "
      ∷ a.source
      ∷ " identity, B is a "
      ∷ b.source
      ∷ " identity."
      ∷ [])

  -- `parsed or None`: an empty object counts as none.
  some_row : Row → Option Row
  some_row [] = none
  some_row (entry ∷ row) = some (entry ∷ row)

  unfoldable pub reparse : String → Option Row
  unfolding some_row
  reparse text = elim (services.loads text) [
    | none ↦ none
    | some decoded ↦ some_row (as_mapping decoded)
  ]

  parsed_of : LlmResponse → Option Row
  unfolding reparse
  parsed_of response = elim response.parsed [ some row ↦ some row | none ↦ reparse response.text ]

  abbrev client_ok : Result E LlmResponse → Result (AdjudicationError E) LlmResponse
  client_ok (ok response) = ok response
  client_ok (err e) = err (client_raised e)

  -- The adjudication with its row of ops.llm_adjudications.
  unfoldable pub adjudication : String → ScoredPair → Evidence → String → String → ℕ → Adjudication
  adjudication settled pair evidence model pipeline_version now = record {
    pair_id = settled;
    left = pair.left;
    right = pair.right;
    probability = pair.probability;
    verdict = evidence.verdict;
    evidence = evidence_row evidence;
    row =
        ("pair_id", str settled)
        ∷ ("source_record_id_a", str pair.left)
        ∷ ("source_record_id_b", str pair.right)
        ∷ ("splink_probability", float pair.probability)
        ∷ ("verdict", str evidence.verdict)
        ∷ ("rationale", str evidence.rationale)
        ∷ ("fields_supporting", json_list (map str evidence.fields_supporting))
        ∷ ("model", str model)
        ∷ ("pipeline_version", str pipeline_version)
        ∷ ("adjudicated_at", datetime now)
        ∷ [];
  }

  module _ (views : Dict PsrView) (existing_pair_ids : List String)
      (pipeline_version : String) where
    both_views : Option PsrView → Option PsrView → Option (PsrView × PsrView)
    both_views (some a) (some b) = some (a, b)
    both_views (some a) none = none
    both_views none b = none

    -- The records of a pair that is not settled, if both are known.
    unfoldable pub to_ask : ScoredPair → Option (PsrView × PsrView)
    unfolding both_views
    to_ask pair =
        if contains (pair_id pair.left pair.right) existing_pair_ids
        then none
        else both_views (get views pair.left) (get views pair.right)

    -- One round: ask, check the answer, stamp the row.
    unfoldable pub settle :
        ScoredPair → PsrView → PsrView → S → Result (AdjudicationError E) (Adjudication × S)
    unfolding parsed_of build_prompt validated adjudication
    settle pair a b s =
        let settled = pair_id pair.left pair.right in
        let (answer, s') = services.complete (build_prompt settled a b) s in
        do
          response ← client_ok answer
          evidence ← validated settled (parsed_of response)
          ok (
              let (now, s'') = services.clock s' in
              (adjudication settled pair evidence response.model pipeline_version now, s''))

    unfoldable pub adjudicate_pairs :
        List ScoredPair → S → Result (AdjudicationError E) (List Adjudication × S)
    unfolding to_ask settle
    adjudicate_pairs [] s = ok ([], s)
    adjudicate_pairs (pair ∷ pairs) s =
        elim (to_ask pair) as (λ _. Result (AdjudicationError E) (List Adjudication × S)) [
          | none ↦ adjudicate_pairs pairs s
          | some asked ↦ do
            one ← settle pair asked.0 asked.1 s
            rest ← adjudicate_pairs pairs one.1
            ok (one.0 ∷ rest.0, rest.1)
        ]

  -- `str(row.get("pair_id"))` of each row
  unfoldable pub settled_pair_ids : List Row → List String
  settled_pair_ids [] = []
  settled_pair_ids (row ∷ rows) =
      let rest = settled_pair_ids rows in
      elim (get_str row "pair_id") [
        | some s ↦ s ∷ rest
        | none ↦ services.show_value (get row "pair_id") ∷ rest
      ]
