-- ===== src/Er/Pipeline/Stages.antt =====
-- er/pipeline.py: the matching stages, and `run_pipeline` from the normalized records to the rows of the links,
-- the adjudications and the review queue.
pub mod Sound
use hacknation_hackathon.Base.{
  ℕ, String, Bool, true, false, not, ◌||◌, Option, none, some, List, [], ◌∷◌, ◌++◌, map, ◌==◌,
  contains, select, find, Result, ok, err, ◌>>=◌, if◌then◌else◌,
}
use hacknation_hackathon.Base.Dict.{Dict, insert, values, get}
use hacknation_hackathon.Base.Float.{Float}
use hacknation_hackathon.Base.Int.{ℤ}
use hacknation_hackathon.Base.Sort.{sort_by, str_lt}
use hacknation_hackathon.Json.{Row}
use hacknation_hackathon.Er.Models.{
  PsrView, psr_view, RuleMatch, ScoredPair, splink, llm_adjudication,
}
use hacknation_hackathon.Er.Allocator.{Allocator}
use hacknation_hackathon.Er.Crosslinks.{
  build_crosslinks, candidate_pairs, hacknation_repo_candidates,
}
use hacknation_hackathon.Er.Rules.{Scoring, deterministic_matches, hacknation_matches}
use hacknation_hackathon.Er.Splink.{
  Band, auto_band, adjudicate_band, review_band, drop_band, Prediction, band_of,
  features_from_vector, filter_unlinked_pairs, score_pairs,
}
use hacknation_hackathon.Er.Adjudicate.{
  Services, Adjudication, AdjudicationError, adjudicate_pairs, settled_pair_ids,
  llm_link_confidence,
}
use hacknation_hackathon.Er.Cluster.{ClusterError, LinkRow, components}
use hacknation_hackathon.Er.Pipeline.{
  Libraries, MatchState, ErDeps, Outcome, ReviewRow, LinkInvariantError, active_links,
  link_and_mint, assert_one_active_link,
}

-- The tables that the stages read.
pub record ErInputs : Type 0 where
  pub github_users : List Row
  pub person_rows : List Row
  pub hacknation_projects : List Row
  pub paper_code_links : List Row
  pub projects : List Row
  pub publications : List Row
  pub companies : List Row
  pub contributions : List Row
  pub authorships : List Row
  pub officers : List Row
  pub psr_rows : List Row
  pub link_rows : List Row
  pub adjudication_rows : List Row

-- What the stages call that is not of this repository, and `deterministic_splink`.
pub record RunDeps (E S : Type 0) : Type 0 where
  pub libraries : Libraries
  pub scoring : Scoring
  pub services : Services E S
  pub allocator : Allocator S
  pub predict : Bool → List Row → List Prediction
  pub round6 : Float → Float
  pub of_int : ℤ → Float
  pub show_int : ℤ → String
  pub isoformat : ℕ → String
  pub pipeline_version : String
  pub deterministic_splink : Bool

-- Which of the stages 2, 3 and 4 run.
pub record Stages : Type 0 where
  pub deterministic : Bool
  pub splink_pass : Bool
  pub adjudication : Bool

-- `matches` for the automatic ones, `d6_pairs` for the others.
abbrev sort_match : RuleMatch → MatchState → MatchState
sort_match m state =
    if m.auto
    then record state { matches = state.matches ++ m ∷ [] }
    else record state { d6_pairs = state.d6_pairs ++ m ∷ [] }

sort_matches : List RuleMatch → MatchState → MatchState
sort_matches [] state = state
sort_matches (m ∷ ms) state = sort_matches ms (sort_match m state)

abbrev views_by_id : List PsrView → Dict PsrView → Dict PsrView
views_by_id [] d = d
views_by_id (v ∷ vs) d = views_by_id vs (insert v.source_record_id v d)

abbrev extend_matches : List RuleMatch → MatchState → MatchState
extend_matches ms state = record state { matches = state.matches ++ ms }

-- `component_of.get(member)`: the last of the components that hold it.
component_of : List (List String) → String → Option (List String)
component_of [] member = none
component_of (c ∷ cs) member =
    let later = component_of cs member in
    elim later [ some d ↦ some d | none ↦ if contains member c then some c else none ]

-- `right in component_of.get(left, frozenset())`
same_component : List (List String) → String → String → Bool
unfolding component_of
same_component cs left right = elim (component_of cs left) [
  | some c ↦ contains right c
  | none ↦ false
]

abbrev splink_match : (Float → Float) → ScoredPair → RuleMatch
splink_match round2 pair = record {
  left = pair.left;
  right = pair.right;
  rule = "splink";
  method = splink;
  confidence = round2 pair.probability;
  auto = true;
  evidence = pair.comparison;
}

abbrev add_review : ScoredPair → String → Row → MatchState → MatchState
add_review pair kind features state = record state {
  review_pairs = state.review_pairs ++ (pair, kind, features) ∷ [];
}

by_band : (Float → Float) → Band → ScoredPair → MatchState → MatchState
by_band round2 auto_band pair state = extend_matches (splink_match round2 pair ∷ []) state
by_band round2 adjudicate_band pair state = add_review pair "adjudicate" pair.comparison state
by_band round2 review_band pair state =
    add_review pair "splink" (features_from_vector pair.comparison) state
by_band round2 drop_band pair state = state

-- The loop of `_run_splink`; `already` are the components before it.
splink_loop : (Float → Float) → List (List String) → List ScoredPair → MatchState → MatchState
unfolding same_component by_band
splink_loop round2 already [] state = state
splink_loop round2 already (pair ∷ pairs) state = splink_loop round2 already pairs (
    if same_component already pair.left pair.right
    then state
    else by_band round2 (band_of pair.probability) pair state)

abbrev llm_match : Adjudication → RuleMatch
llm_match a = record {
  left = a.left;
  right = a.right;
  rule = "llm";
  method = llm_adjudication;
  confidence = llm_link_confidence;
  auto = true;
  evidence = a.evidence;
}

abbrev unsure_pair : Adjudication → ScoredPair
unsure_pair a = record {
  left = a.left;
  right = a.right;
  probability = a.probability;
  comparison = a.evidence;
}

-- One verdict: its row, and a match, a review or nothing.
take_verdict : Adjudication → MatchState → MatchState
take_verdict a state =
    let stored = record state { adjudication_rows = state.adjudication_rows ++ a.row ∷ [] } in
    if a.verdict == "match"
    then extend_matches (llm_match a ∷ []) stored
    else if a.verdict == "unsure"
    then add_review (unsure_pair a) "llm_adjudication" a.evidence stored
    else stored

take_verdicts : List Adjudication → MatchState → MatchState
unfolding take_verdict
take_verdicts [] state = state
take_verdicts (a ∷ rest) state = take_verdicts rest (take_verdict a state)

abbrev to_adjudicate : ScoredPair × String × Row → Bool
to_adjudicate (pair, kind, features) = kind == "adjudicate"

abbrev pair_of : ScoredPair × String × Row → ScoredPair
pair_of (pair, kind, features) = pair

module _ {E S : Type 0} (deps : RunDeps E S) where
  unfoldable pub run_deterministic : ErInputs → List PsrView → MatchState → MatchState
  unfolding sort_matches
  run_deterministic inputs ordered_views state =
      let unicode = deps.scoring.unicode in
      let crosslinks =
        build_crosslinks unicode deps.of_int inputs.projects inputs.publications inputs.companies
          inputs.paper_code_links in
      let candidates =
        candidate_pairs unicode deps.of_int crosslinks inputs.contributions inputs.authorships
          inputs.officers in
      let d8_candidates =
        hacknation_repo_candidates unicode deps.of_int deps.show_int deps.services.uuid5
          inputs.hacknation_projects inputs.projects inputs.contributions in
      extend_matches (hacknation_matches deps.scoring (views_by_id ordered_views []) d8_candidates)
        (sort_matches (deterministic_matches deps.scoring ordered_views candidates) state)

  unfoldable pub run_splink : List PsrView → Dict String → MatchState → MatchState
  unfolding splink_loop
  run_splink ordered_views linked state =
      let scored =
        score_pairs deps.predict deps.round6 ordered_views (not deps.deterministic_splink) in
      splink_loop deps.scoring.round2 (components deps.libraries.connected_components state.matches)
        (filter_unlinked_pairs scored linked) state

  unfoldable pub run_adjudication :
      ErInputs → Dict PsrView → MatchState → S → Result (AdjudicationError E) (MatchState × S)
  unfolding take_verdicts
  run_adjudication inputs views state s =
      let band_pairs = map pair_of (select to_adjudicate state.review_pairs) in
      let settled = settled_pair_ids deps.services inputs.adjudication_rows in
      let kept = record state {
        review_pairs = select (λ e. not (to_adjudicate e)) state.review_pairs;
      } in
      do
        answered ← adjudicate_pairs deps.services views settled deps.pipeline_version band_pairs s
        ok (take_verdicts answered.0 kept, answered.1)

-- What a run can raise.
pub data RunError (E : Type 0) : Type 0 where
  adjudication_error : AdjudicationError E → RunError E
  cluster_error : ClusterError → RunError E
  invariant_error : LinkInvariantError → RunError E

abbrev pub mapped : {A F G : Type 0} → (F → G) → Result F A → Result G A
mapped f (ok a) = ok a
mapped f (err e) = err (f e)

-- The rows for silver.person_source_link, ops.llm_adjudications and ops.er_review_queue, and `person_of`.
pub record RunOutcome (S : Type 0) : Type 0 where
  pub links : List LinkRow
  pub adjudications : List Row
  pub reviews : List ReviewRow
  pub person_of : Dict String
  pub state : S

abbrev pub any_stage : Stages → Bool
any_stage stages = stages.deterministic || stages.splink_pass || stages.adjudication

unfoldable pub no_matches : MatchState
no_matches = record { matches = []; adjudication_rows = []; d6_pairs = []; review_pairs = [] }

add_views : (ℕ → String) → List Row → Dict PsrView → Dict PsrView
add_views isoformat [] views = views
add_views isoformat (row ∷ rows) views =
    let view = psr_view isoformat row in
    add_views isoformat rows (insert view.source_record_id view views)

abbrev by_key : String × PsrView → String × PsrView → Bool
by_key (a, v) (b, w) = str_lt a b

-- `[views[key] for key in sorted(views)]`
abbrev pub in_order : Dict PsrView → List PsrView
in_order views = values (sort_by by_key views)

module _ {E S : Type 0} (deps : RunDeps E S) where
  -- The records by their ids; a record normalized in this run replaces a stored one.
  unfoldable pub views_of : ErInputs → List Row → Dict PsrView
  unfolding add_views
  views_of inputs new_psr_rows =
      add_views deps.isoformat new_psr_rows (add_views deps.isoformat inputs.psr_rows [])

  -- The stages that run, in their order.
  unfoldable pub match_stages :
      ErInputs
      → Stages
      → Dict PsrView
      → Dict String
      → S
      → Result (AdjudicationError E) (MatchState × S)
  unfolding run_deterministic run_splink run_adjudication no_matches
  match_stages inputs stages views linked s =
      let ordered_views = in_order views in
      let first =
        if stages.deterministic
        then run_deterministic deps inputs ordered_views no_matches
        else no_matches in
      let second =
        if stages.splink_pass then run_splink deps ordered_views linked first else first in
      elim stages.adjudication [
        | true ↦ run_adjudication deps inputs views second s
        | false ↦ ok (second, s)
      ]

  -- `_link_and_mint` and `_assert_one_active_link`, on the clock's time.
  unfoldable pub link_stage :
      List PsrView → Dict String → MatchState → S → Result (RunError E) (RunOutcome S)
  unfolding link_and_mint assert_one_active_link
  link_stage views linked state s =
      let (now, s') = deps.services.clock s in
      let (link_now, s'') = deps.services.clock s' in
      let er_deps : ErDeps S = record {
        allocator = deps.allocator;
        now = now;
        link_now = link_now;
        pipeline_version = deps.pipeline_version;
      } in
      do
        out ← mapped cluster_error (link_and_mint deps.libraries er_deps views linked state s'')
        checked ← mapped invariant_error (assert_one_active_link views linked out.links)
        ok (record {
          links = out.links;
          adjudications = state.adjudication_rows;
          reviews = out.reviews;
          person_of = out.person_of;
          state = out.state;
        })

  -- `run_pipeline` on the rows that stage 0 has normalized (none if it does not run), up to stage 5.
  unfoldable pub run_matching :
      ErInputs → List Row → Stages → S → Result (RunError E) (RunOutcome S)
  unfolding views_of match_stages link_stage
  run_matching inputs new_psr_rows stages s =
      let views = views_of inputs new_psr_rows in
      let linked = active_links inputs.link_rows in
      do
        matched ← mapped adjudication_error (match_stages inputs stages views linked s)
        elim (any_stage stages) as (λ _. Result (RunError E) (RunOutcome S)) [
          | true ↦ link_stage (in_order views) linked matched.0 matched.1
          | false ↦ ok (record {
            links = [];
            adjudications = matched.0.adjudication_rows;
            reviews = [];
            person_of = linked;
            state = matched.1;
          })
        ]
