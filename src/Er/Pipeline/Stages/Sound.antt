-- ===== src/Er/Pipeline/Stages/Sound.antt =====
-- er/pipeline.py: the matching stages keep what the linking stage needs of them.
use hacknation_hackathon.Base.{
  Result-cases, ℕ, String, ◌≡◌, refl, sym, ◌∙◌, ap, subst, ◌⊎◌, inl, inr, Bool, true, false, not,
  some, List, [], ◌∷◌, ◌++◌, map, ◌==◌, All, All-imp, All-append, Bool-cases, Result, ok, err,
  >>=-eq-ok, ok-injective, select, if◌then◌else◌,
}
use hacknation_hackathon.Base.Dict.{Dict, get, IsDict}
use hacknation_hackathon.Base.Float.{Float}
use hacknation_hackathon.Json.{Row}
use hacknation_hackathon.Er.Models.{
  PsrView, RuleMatch, ScoredPair, Method, method_index, det_orcid, det_email, det_website,
  det_handle, det_linkedin, det_crosslink, det_hn_repo, splink, llm_adjudication, det_name_org,
}
use hacknation_hackathon.Er.Allocator.{active_links_from-IsDict}
use hacknation_hackathon.Er.Graph.{Components}
use hacknation_hackathon.Er.Crosslinks.{
  PairDict, build_crosslinks, candidate_pairs, hacknation_repo_candidates,
}
use hacknation_hackathon.Er.Rules.{deterministic_matches, hacknation_matches}
use hacknation_hackathon.Er.Rules.Pairs.{is_identifier}
use hacknation_hackathon.Er.Rules.Reasons.{
  Grounded, deterministic_matches-Grounded, hacknation_matches-Proposed,
}
use hacknation_hackathon.Er.Splink.{
  Band, auto_band, adjudicate_band, review_band, drop_band, band_of, score_pairs,
  filter_unlinked_pairs,
}
use hacknation_hackathon.Er.Adjudicate.{Adjudication, adjudicate_pairs, settled_pair_ids}
use hacknation_hackathon.Er.Cluster.{components}
use hacknation_hackathon.Er.Cluster.Links.{HasPriority}
use hacknation_hackathon.Er.Pipeline.{MatchState, ErDeps, active_links, assert_one_active_link}
use hacknation_hackathon.Er.Pipeline.OneLink.{link_and_mint_one_link}
use hacknation_hackathon.Er.Pipeline.Stages.{
  ErInputs, RunDeps, Stages, RunError, adjudication_error, cluster_error, invariant_error,
  RunOutcome, no_matches, sort_match, sort_matches, by_band, splink_loop, same_component,
  take_verdict, take_verdicts, run_deterministic, run_splink, run_adjudication, match_stages,
  link_stage, run_matching, views_of, in_order, any_stage, pair_of, to_adjudicate, views_by_id,
}

indexed : (k : Method) → is_identifier k ≡ true → (i : ℕ) × (method_index k ≡ some i)
indexed det_orcid h = (0, refl)
indexed det_email h = (1, refl)
indexed det_website h = (2, refl)
indexed det_handle h = (3, refl)
indexed det_linkedin h = (4, refl)
indexed det_crosslink h = (5, refl)
indexed det_hn_repo h = (6, refl)
indexed splink h = (7, refl)
indexed llm_adjudication h = (8, refl)
indexed det_name_org h = cc

module _ {E S : Type 0} (deps : RunDeps E S) where
  Grounded-HasPriority :
      (views : List PsrView) (candidates : PairDict) (m : RuleMatch)
      → Grounded deps.scoring views candidates m
      → HasPriority m
  Grounded-HasPriority views candidates m (inl h) e = indexed m.method (sym h.5.2 ∙ e)
  Grounded-HasPriority views candidates m (inr h) e = indexed m.method (ap is_identifier h.8)

-- All matches so far have a place in METHOD_PRIORITY.
abbrev Known : MatchState → Type 0
Known state = All HasPriority state.matches

Known-if : (b : Bool) (x y : MatchState) → Known x → Known y → Known (if b then x else y)
Known-if true x y hx hy = hx
Known-if false x y hx hy = hy

sort_matches-Known :
    (ms : List RuleMatch) (state : MatchState)
    → All HasPriority ms
    → Known state
    → Known (sort_matches ms state)
unfolding sort_matches
sort_matches-Known [] state h k = k
sort_matches-Known (m ∷ ms) state h k = sort_matches-Known ms (sort_match m state) h.1 (
    Known-if m.auto (record state { matches = state.matches ++ m ∷ [] })
      (record state { d6_pairs = state.d6_pairs ++ m ∷ [] })
      (All-append HasPriority state.matches (m ∷ []) k (h.0, tt)) k)

module _ (round2 : Float → Float) where
  by_band-Known :
      (b : Band) (pair : ScoredPair) (state : MatchState)
      → Known state
      → Known (by_band round2 b pair state)
  unfolding by_band
  by_band-Known auto_band pair state k =
      All-append HasPriority state.matches _ k ((λ e. (7, refl)), tt)
  by_band-Known adjudicate_band pair state k = k
  by_band-Known review_band pair state k = k
  by_band-Known drop_band pair state k = k

  splink_loop-Known :
      (already : List (List String)) (pairs : List ScoredPair) (state : MatchState)
      → Known state
      → Known (splink_loop round2 already pairs state)
  unfolding splink_loop
  splink_loop-Known already [] state k = k
  splink_loop-Known already (pair ∷ pairs) state k =
      elim (Bool-cases (same_component already pair.left pair.right)) [
        | inl e ↦ rw (splink_loop, e) (splink_loop-Known already pairs state k)
        | inr e ↦
            rw (splink_loop, e)
              (splink_loop-Known already pairs
                (by_band round2 (band_of pair.probability) pair state)
                (by_band-Known (band_of pair.probability) pair state k))
      ]

take_verdict-Known :
    (a : Adjudication) (state : MatchState) → Known state → Known (take_verdict a state)
unfolding take_verdict
take_verdict-Known a state k = elim (Bool-cases (a.verdict == "match")) [
  | inl e ↦ rw e (All-append HasPriority state.matches _ k ((λ h. (8, refl)), tt))
  | inr e ↦ elim (Bool-cases (a.verdict == "unsure")) [ inl u ↦ rw (e, u) k | inr u ↦ rw (e, u) k ]
]

take_verdicts-Known :
    (rest : List Adjudication) (state : MatchState) → Known state → Known (take_verdicts rest state)
unfolding take_verdicts
take_verdicts-Known [] state k = k
take_verdicts-Known (a ∷ rest) state k =
    take_verdicts-Known rest (take_verdict a state) (take_verdict-Known a state k)

module _ {E S : Type 0} (deps : RunDeps E S) where
  run_deterministic-Known :
      (inputs : ErInputs) (views : List PsrView) (state : MatchState)
      → Known state
      → Known (run_deterministic deps inputs views state)
  unfolding run_deterministic
  run_deterministic-Known inputs views state k =
      let u = deps.scoring.unicode in
      let links =
        build_crosslinks u deps.of_int inputs.projects inputs.publications inputs.companies
          inputs.paper_code_links in
      let candidates =
        candidate_pairs u deps.of_int links inputs.contributions inputs.authorships
          inputs.officers in
      let repos =
        hacknation_repo_candidates u deps.of_int deps.show_int deps.services.uuid5
          inputs.hacknation_projects inputs.projects inputs.contributions in
      let found = deterministic_matches deps.scoring views candidates in
      All-append HasPriority (sort_matches found state).matches _
        (sort_matches-Known found state
          (All-imp (Grounded-HasPriority deps views candidates) found
            (deterministic_matches-Grounded deps.scoring views candidates))
          k)
        (All-imp (λ m h e. indexed m.method (ap is_identifier h.8))
          (hacknation_matches deps.scoring (views_by_id views []) repos)
          (hacknation_matches-Proposed deps.scoring (views_by_id views []) repos))

  run_splink-Known :
      (views : List PsrView) (linked : Dict String) (state : MatchState)
      → Known state
      → Known (run_splink deps views linked state)
  unfolding run_splink
  run_splink-Known views linked state k =
      splink_loop-Known deps.scoring.round2
        (components deps.libraries.connected_components state.matches)
        (filter_unlinked_pairs
          (score_pairs deps.predict deps.round6 views (not deps.deterministic_splink)) linked)
        state k

  run_adjudication-Known :
      (inputs : ErInputs) (views : Dict PsrView) (state : MatchState) (s : S) {r : MatchState × S}
      → Known state
      → run_adjudication deps inputs views state s ≡ ok r
      → Known r.0
  unfolding run_adjudication
  run_adjudication-Known inputs views state s k h =
      let settled = settled_pair_ids deps.services inputs.adjudication_rows in
      let (answered, _, e) =
        >>=-eq-ok
          (adjudicate_pairs deps.services views settled deps.pipeline_version
            (map pair_of (select to_adjudicate state.review_pairs)) s)
          _ h in
      let kept = record state {
        review_pairs = select (λ p. not (to_adjudicate p)) state.review_pairs;
      } in
      subst (λ (r : MatchState × S). Known r.0) (ok-injective e)
        (take_verdicts-Known answered.0 kept k)

  match_stages-Known :
      (inputs : ErInputs) (stages : Stages) (views : Dict PsrView) (linked : Dict String) (s : S)
      {r : MatchState × S}
      → match_stages deps inputs stages views linked s ≡ ok r
      → Known r.0
  unfolding match_stages no_matches
  match_stages-Known inputs stages views linked s h =
      let ordered = in_order views in
      let first =
        if stages.deterministic
        then run_deterministic deps inputs ordered no_matches
        else no_matches in
      let k1 : Known first =
        Known-if stages.deterministic _ _ (run_deterministic-Known inputs ordered no_matches tt)
          tt in
      let second = if stages.splink_pass then run_splink deps ordered linked first else first in
      let k2 : Known second =
        Known-if stages.splink_pass _ _ (run_splink-Known ordered linked first k1) k1 in
      elim (Bool-cases stages.adjudication) [
        | inl e ↦ run_adjudication-Known inputs views second s k2 (rw (match_stages, e) at h)
        | inr e ↦
            subst (λ (r : MatchState × S). Known r.0) (ok-injective (rw (match_stages, e) at h)) k2
      ]

  -- A failed run failed in the adjudication; one that returns passed the assertion.
  abbrev pub IsSound :
      List PsrView → Dict String → Stages → Result (RunError E) (RunOutcome S) → Type 0
  IsSound views linked stages (ok out) =
      (any_stage stages ≡ false) ⊎ (assert_one_active_link views linked out.links ≡ ok tt)
  IsSound views linked stages (err (adjudication_error e)) = Unit
  IsSound views linked stages (err (cluster_error e)) = ⊥
  IsSound views linked stages (err (invariant_error e)) = ⊥

  module _ (graphs : Components deps.libraries.connected_components) where
    link_stage-IsSound :
        (views : List PsrView) (linked : Dict String) (stages : Stages) (state : MatchState) (s : S)
        → IsDict linked
        → Known state
        → IsSound views linked stages (link_stage deps views linked state s)
    unfolding link_stage
    link_stage-IsSound views linked stages state s dict known =
        let (now, s') = deps.services.clock s in
        let (link_now, s'') = deps.services.clock s' in
        let er_deps : ErDeps S = record {
          allocator = deps.allocator;
          now = now;
          link_now = link_now;
          pipeline_version = deps.pipeline_version;
        } in
        let (out, e, checked) =
          link_and_mint_one_link deps.libraries er_deps graphs views linked state s'' dict known in
        rw (link_stage, e, checked) (inr checked)

    -- Where the graph library puts each node in exactly one component, a run of the pipeline on
    -- its records, whatever Splink, the model and the tables give, raises nothing but what the
    -- adjudication raises: no ClusterError and no LinkInvariantError. If it returns and a matching
    -- stage ran, the assertion that each record has exactly one active link passed.
    pub run_matching-IsSound :
        (inputs : ErInputs) (new_psr_rows : List Row) (stages : Stages) (s : S)
        → IsSound
            (in_order (views_of deps inputs new_psr_rows))
            (active_links inputs.link_rows)
            stages
            (run_matching deps inputs new_psr_rows stages s)
    unfolding run_matching get
    run_matching-IsSound inputs new_psr_rows stages s =
        let views = views_of deps inputs new_psr_rows in
        let linked = active_links inputs.link_rows in
        let ordered = in_order views in
        elim (Result-cases (match_stages deps inputs stages views linked s)) [
          | inr (e, h) ↦ rw (run_matching, h) tt
          | inl (matched, h) ↦ elim (Bool-cases (any_stage stages)) [
            | inr b ↦ rw (run_matching, h, b) (inl b)
            | inl b ↦
                rw (run_matching, h, b)
                  (link_stage-IsSound ordered linked stages matched.0 matched.1
                    (active_links_from-IsDict [] inputs.link_rows (λ a. refl))
                    (match_stages-Known inputs stages views linked s h))
          ]
        ]
