-- ===== src/Er/Pipeline/Run.antt =====
-- er/pipeline.py: `_run_survivorship`, `_as_json_row`, and `run_pipeline` with stage 5.
use hacknation_hackathon.Base.{
  Result-cases, String, ◌≡◌, refl, inl, inr, Bool, true, false, not, Option, none, some, List, [],
  ◌∷◌, ◌++◌, map, contains, select, Result, ok, err, ◌>>=◌,
}
use hacknation_hackathon.Base.Dict.{Dict, get}
use hacknation_hackathon.Json.{
  Json, str, datetime, arr, obj, Items, nil, cons, Row, get_str, as_str,
}
use hacknation_hackathon.Er.Graph.{Components}
use hacknation_hackathon.Er.Connections.{Calendar, Connection, DateError, build_connections}
use hacknation_hackathon.Er.Survivorship.{FieldConflict, Numbers, SurvivorshipError}
use hacknation_hackathon.Er.Survivorship.Build.{build_persons, backfill_person_id}
use hacknation_hackathon.Er.Pipeline.{active_links}
use hacknation_hackathon.Er.Pipeline.Stages.{
  ErInputs, RunDeps, Stages, RunError, RunOutcome, mapped, run_matching, views_of, in_order,
}
use hacknation_hackathon.Er.Pipeline.Stages.Sound.{IsSound, run_matching-IsSound}

pub data PipelineError (E : Type 0) : Type 0 where
  matching_error : RunError E → PipelineError E
  survivorship_error : SurvivorshipError E → PipelineError E
  date_error : DateError → PipelineError E

-- The tables that stage 5 writes, and the conflicts.
pub record Survived : Type 0 where
  pub persons : List Row
  pub contributions : List Row
  pub authorships : List Row
  pub officers : List Row
  pub connections : List Connection
  pub conflicts : List FieldConflict

pub record PipelineOutcome (S : Type 0) : Type 0 where
  pub matched : RunOutcome S
  pub survived : Option Survived
  pub state : S

module _ {E S : Type 0} (deps : RunDeps E S) (numbers : Numbers) (cal : Calendar) where
  -- `[str(item) for item in value]`
  text_items : Items → Items
  text_items nil = nil
  text_items (cons x xs) =
      let rest = text_items xs in
      elim (as_str x) [
        | some s ↦ cons (str s) rest
        | none ↦ cons (str (deps.services.show_value (some x))) rest
      ]

  -- A dict is left out.
  bridged : String → Json → List (String × Json)
  unfolding text_items
  bridged key (datetime t) = (key, str (deps.isoformat t)) ∷ []
  bridged key (arr xs) = (key, arr (text_items xs)) ∷ []
  bridged key (obj fields) = []
  bridged key value = (key, value) ∷ []

  unfoldable pub as_json_row : Row → Row
  unfolding bridged
  as_json_row [] = []
  as_json_row ((key, value) ∷ row) = bridged key value ++ as_json_row row

  -- `str(row.get("source_record_id"))`
  abbrev id_text : Row → String
  id_text row = elim (get_str row "source_record_id") as (λ _. String) [
    | some s ↦ s
    | none ↦ deps.services.show_value (get row "source_record_id")
  ]

  -- The stored records and the new ones that are not among them.
  all_rows : List Row → List Row → List Row
  unfolding as_json_row
  all_rows psr_rows new_psr_rows =
      psr_rows
      ++ map as_json_row
          (select (λ row. not (contains (id_text row) (map id_text psr_rows))) new_psr_rows)

  abbrev raised : {A : Type 0} → Result DateError A → Result (PipelineError E) A
  raised = mapped date_error

  unfoldable pub run_survivorship :
      ErInputs → List Row → Dict String → S → Result (PipelineError E) (Survived × S)
  unfolding all_rows build_persons backfill_person_id build_connections
  run_survivorship inputs new_psr_rows person_of s = do
    built ← mapped survivorship_error (
        build_persons numbers deps.services (all_rows inputs.psr_rows new_psr_rows) person_of
          inputs.github_users inputs.hacknation_projects inputs.person_rows s)
    edges ← raised (
        build_connections cal inputs.authorships inputs.contributions inputs.officers
          inputs.publications person_of (deps.services.clock built.1).0)
    ok (
      record {
        persons = built.0.0;
        contributions = backfill_person_id inputs.contributions person_of;
        authorships = backfill_person_id inputs.authorships person_of;
        officers = backfill_person_id inputs.officers person_of;
        connections = edges;
        conflicts = built.0.1;
      },
      (deps.services.clock built.1).1,
    )

  -- `run_pipeline` on the rows that stage 0 has normalized; `survivorship` is whether stage 5 runs.
  unfoldable pub run_pipeline :
      ErInputs → List Row → Stages → Bool → S → Result (PipelineError E) (PipelineOutcome S)
  unfolding run_matching run_survivorship
  run_pipeline inputs new_psr_rows stages survivorship s = do
    matched ← mapped matching_error (run_matching deps inputs new_psr_rows stages s)
    elim survivorship as (λ _. Result (PipelineError E) (PipelineOutcome S)) [
      | false ↦ ok (record { matched = matched; survived = none; state = matched.state })
      | true ↦ do
        survived ← run_survivorship inputs new_psr_rows matched.person_of matched.state
        ok (record { matched = matched; survived = some survived.0; state = survived.1 })
    ]

  -- A run that failed did so in the adjudication, in the survivorship or at a date; one that returned has the links
  -- of a sound matching.
  abbrev pub IsSafe :
      ErInputs → List Row → Stages → Result (PipelineError E) (PipelineOutcome S) → Type 0
  IsSafe inputs new_psr_rows stages (ok out) =
      IsSound deps (in_order (views_of deps inputs new_psr_rows)) (active_links inputs.link_rows)
        stages (ok out.matched)
  IsSafe inputs new_psr_rows stages (err (matching_error e)) =
      IsSound deps (in_order (views_of deps inputs new_psr_rows)) (active_links inputs.link_rows)
        stages (err e)
  IsSafe inputs new_psr_rows stages (err (survivorship_error e)) = Unit
  IsSafe inputs new_psr_rows stages (err (date_error e)) = Unit

  module _ (inputs : ErInputs) (new_psr_rows : List Row) (stages : Stages) where
    abbrev Matched : Result (RunError E) (RunOutcome S) → Type 0
    Matched =
        IsSound deps (in_order (views_of deps inputs new_psr_rows)) (active_links inputs.link_rows)
          stages

    -- The error of stage 5 is none of the matching.
    abbrev Late : Result (PipelineError E) (Survived × S) → Type 0
    Late (ok out) = Unit
    Late (err (matching_error e)) = ⊥
    Late (err (survivorship_error e)) = Unit
    Late (err (date_error e)) = Unit

    run_survivorship-Late :
        (person_of : Dict String) (s : S) → Late (run_survivorship inputs new_psr_rows person_of s)
    unfolding run_survivorship
    run_survivorship-Late person_of s =
        elim (Result-cases (
          build_persons numbers deps.services (all_rows inputs.psr_rows new_psr_rows) person_of
            inputs.github_users inputs.hacknation_projects inputs.person_rows s)) [
              | inr (e, h) ↦ rw (run_survivorship, h) tt
              | inl (built, h) ↦
                  elim (Result-cases (
                    build_connections cal inputs.authorships inputs.contributions inputs.officers
                      inputs.publications person_of (deps.services.clock built.1).0)) [
                        | inr (e, k) ↦ rw (run_survivorship, h, k) tt
                        | inl (edges, k) ↦ rw (run_survivorship, h, k) tt
                      ]
            ]

    survived-IsSafe :
        (matched : RunOutcome S) (r : Result (PipelineError E) (Survived × S))
        → Matched (ok matched)
        → Late r
        → IsSafe inputs new_psr_rows stages (
            r >>= λ survived.
            ok (record { matched = matched; survived = some survived.0; state = survived.1 }))
    survived-IsSafe matched (ok out) m h = m
    survived-IsSafe matched (err (matching_error e)) m h = absurd h
    survived-IsSafe matched (err (survivorship_error e)) m h = tt
    survived-IsSafe matched (err (date_error e)) m h = tt

    stage5-IsSafe :
        (survivorship : Bool) (s : S) (r : Result (RunError E) (RunOutcome S))
        → run_matching deps inputs new_psr_rows stages s ≡ r
        → Matched r
        → IsSafe inputs new_psr_rows stages (run_pipeline inputs new_psr_rows stages survivorship s)
    unfolding run_pipeline
    stage5-IsSafe survivorship s (err e) h m = rw (run_pipeline, h) m
    stage5-IsSafe true s (ok matched) h m =
        rw (run_pipeline, h)
          (survived-IsSafe matched
            (run_survivorship inputs new_psr_rows matched.person_of matched.state) m
            (run_survivorship-Late matched.person_of matched.state))
    stage5-IsSafe false s (ok matched) h m = rw (run_pipeline, h) m

    -- Where the graph library puts each node in exactly one component, a run of the pipeline on
    -- normalized rows, whatever Splink, the model and the tables give, raises nothing but what the
    -- adjudication raises, what the survivorship raises, or the ValueError of a text that is no
    -- date: no ClusterError and no LinkInvariantError. If it returns and a matching stage ran, the
    -- assertion that each record has exactly one active link passed.
    pub run_pipeline-IsSafe :
        Components deps.libraries.connected_components
        → (survivorship : Bool) (s : S)
        → IsSafe inputs new_psr_rows stages (run_pipeline inputs new_psr_rows stages survivorship s)
    run_pipeline-IsSafe graphs survivorship s =
        stage5-IsSafe survivorship s (run_matching deps inputs new_psr_rows stages s) refl
          (run_matching-IsSound deps graphs inputs new_psr_rows stages s)
