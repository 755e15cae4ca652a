-- ===== src/Er/Quality/Corroborated.antt =====
-- er/quality.py: what a row that `corroborate` writes says.
use hacknation_hackathon.Base.{
  ℕ, String, Bool, true, false, Option, none, some, List, [], ◌∷◌, ◌++◌, ◌==◌, ltb, length,
  contains, select, or_else, All, All-append, All-imp, All-select, Bool-cases, ◌≡◌, refl, sym, ap,
  ◌∙◌, ◌↔◌, ◌⊎◌, inl, inr, arith,
}
use mathlib.Core.List.{Memᴰ}
use mathlib.Core.List.Memᴰ
use hacknation_hackathon.Base.Dict.{Dict, get, insert, get-insert_self, get-insert_other}
use hacknation_hackathon.Base.Float.{Float}
use hacknation_hackathon.Base.Int.{pos}
use hacknation_hackathon.Json.{bool, int, Row, get_str, read, as_str}
use hacknation_hackathon.Er.Quality.{
  provisional_threshold, to_set, add_own, independent, is_number, sources_of, updated, is_current,
  rate, corroborate_row, corroborate,
}
use hacknation_hackathon.Er.Quality.Sources.{
  select-NoRepeat, to_set-NoRepeat, add_own-NoRepeat, IsTwo, two_of, All_contained, contains-to_set,
  contains-add_own, contains-select, contains_of_add_own, All_of_contains, NoRepeat,
}

module _ (psr_sources : Dict String) (attesting : Dict (List String)) where
  -- A source type other than enrichment that is the record's or is supplied for the artifact.
  abbrev pub Attests : String → String → String → Type 0
  Attests artifact psr source =
      ("enrichment" == source ≡ false)
      × ((get psr_sources psr ≡ some source)
          ⊎ (contains source (or_else (get attesting artifact) []) ≡ true))

  sources_of-Attests :
      (artifact psr : String)
      → All (Attests artifact psr) (sources_of psr_sources attesting artifact psr)
  unfolding sources_of
  sources_of-Attests artifact psr =
      let supplied = or_else (get attesting artifact) [] in
      All-select (Attests artifact psr) independent
        (add_own (get psr_sources psr) (to_set supplied))
        (All_contained (λ x. independent x ≡ true → Attests artifact psr x)
          (add_own (get psr_sources psr) (to_set supplied))
          (λ x c i. (
            ground (arith, i),
            elim (contains-add_own x (get psr_sources psr) (to_set supplied) c) [
              | inl e ↦ inl e
              | inr e ↦ inr (sym (contains-to_set x supplied) ∙ e)
            ],
          )))

  -- A list with each attesting source once, and no other source.
  abbrev pub IsSourceSet : String → String → List String → Type 0
  IsSourceSet artifact psr sources =
      NoRepeat sources
      × ((source : String) → (contains source sources ≡ true) ↔ Attests artifact psr source)

  sources_of-IsSourceSet :
      (artifact psr : String)
      → IsSourceSet artifact psr (sources_of psr_sources attesting artifact psr)
  unfolding sources_of
  sources_of-IsSourceSet artifact psr =
      let supplied = or_else (get attesting artifact) [] in
      let all = add_own (get psr_sources psr) (to_set supplied) in
      (
        select-NoRepeat independent all
            (add_own-NoRepeat (get psr_sources psr) (to_set supplied) (to_set-NoRepeat supplied)),
        λ source. (
          All_of_contains (Attests artifact psr) source (select independent all)
              (sources_of-Attests artifact psr),
          λ (other, given). contains-select independent source all (ground (arith, other)) (
              contains_of_add_own source (get psr_sources psr) (to_set supplied)
                (elim given [ inl e ↦ inl e | inr e ↦ inr (contains-to_set source supplied ∙ e) ])),
        ),
      )

  attested :
      (artifact psr : String)
      → (ltb (length (sources_of psr_sources attesting artifact psr)) provisional_threshold ≡ true)
        ⊎ IsTwo (Attests artifact psr)
  unfolding sources_of
  attested artifact psr =
      two_of (Attests artifact psr) (sources_of psr_sources attesting artifact psr)
        (select-NoRepeat independent _ (
          add_own-NoRepeat (get psr_sources psr) _
            (to_set-NoRepeat (or_else (get attesting artifact) []))))
        (sources_of-Attests artifact psr)

  module _ (artifact_col : String) where
    -- The row states the number of the independent sources of its fact; it is provisional, or two
    -- different sources attest its fact.
    abbrev pub IsRated : Row → Type 0
    IsRated row =
        (artifact psr : String) × (get_str row artifact_col ≡ some artifact)
        × (get_str row "source_record_id" ≡ some psr)
        × (get row "corroboration_count"
            ≡ some (int (pos (length (sources_of psr_sources attesting artifact psr)))))
        × (get row "is_provisional"
            ≡ some (
                bool (
                  ltb (length (sources_of psr_sources attesting artifact psr))
                    provisional_threshold)))
        × ((get row "is_provisional" ≡ some (bool true)) ⊎ IsTwo (Attests artifact psr))

    -- The two columns that are written are not the one that names the artifact.
    abbrev pub IsArtifactColumn : Type 0
    IsArtifactColumn =
        ("corroboration_count" == artifact_col ≡ false) × ("is_provisional" == artifact_col ≡ false)

    get-updated :
        (column : String) (row : Row) (n : ℕ)
        → "corroboration_count" == column ≡ false
        → "is_provisional" == column ≡ false
        → get (updated row n) column ≡ get row column
    get-updated column row n c p =
        get-insert_other "is_provisional" column (bool (ltb n provisional_threshold))
          (insert "corroboration_count" (int (pos n)) row) p
        ∙ get-insert_other "corroboration_count" column (int (pos n)) row c

    get-updated_count :
        (row : Row) (n : ℕ) → get (updated row n) "corroboration_count" ≡ some (int (pos n))
    get-updated_count row n =
        get-insert_other "is_provisional" "corroboration_count" (bool (ltb n provisional_threshold))
          (insert "corroboration_count" (int (pos n)) row) refl
        ∙ get-insert_self "corroboration_count" (int (pos n)) row

    get-updated_provisional :
        (row : Row) (n : ℕ)
        → get (updated row n) "is_provisional" ≡ some (bool (ltb n provisional_threshold))
    get-updated_provisional row n =
        get-insert_self "is_provisional" (bool (ltb n provisional_threshold))
          (insert "corroboration_count" (int (pos n)) row)

    updated-IsRated :
        IsArtifactColumn
        → (row : Row) (artifact psr : String) → get_str row artifact_col ≡ some artifact
        → get_str row "source_record_id" ≡ some psr
        → IsRated (updated row (length (sources_of psr_sources attesting artifact psr)))
    updated-IsRated (c, p) row artifact psr ea ep =
        let n = length (sources_of psr_sources attesting artifact psr) in
        (
          artifact,
          psr,
          ap (read as_str) (get-updated artifact_col row n c p) ∙ ea,
          ap (read as_str) (get-updated "source_record_id" row n refl refl) ∙ ep,
          get-updated_count row n,
          get-updated_provisional row n,
          elim (attested artifact psr) [
            | inl e ↦ inl (get-updated_provisional row n ∙ ap (λ b. some (bool b)) e)
            | inr two ↦ inr two
          ],
        )

    module _ (float_is : Float → ℕ → Bool) where
      rate-All :
          (P : Row → Type 0) (row : Row) (n : ℕ) → P (updated row n) → All P (rate float_is row n)
      unfolding is_number
      rate-All P row n h = elim (Bool-cases (is_current float_is row n)) [
        | inl e ↦ rw e tt
        | inr e ↦ rw e ((h, tt))
      ]

      corroborate_row-All :
          (P : Row → Type 0) (row : Row) (artifact psr : Option String)
          → ((a p : String)
              → artifact ≡ some a
              → psr ≡ some p
              → P (updated row (length (sources_of psr_sources attesting a p))))
          → All P (corroborate_row float_is artifact_col psr_sources attesting row artifact psr)
      unfolding corroborate_row
      corroborate_row-All P row (some a) (some p) h =
          rate-All P row (length (sources_of psr_sources attesting a p)) (h a p refl refl)
      corroborate_row-All P row (some a) none h = tt
      corroborate_row-All P row none psr h = tt

      corroborate-All :
          IsArtifactColumn
          → (rows : List Row)
          → All IsRated (corroborate float_is artifact_col psr_sources attesting rows)
      unfolding corroborate
      corroborate-All col [] = tt
      corroborate-All col (row ∷ rows) =
          let artifact = get_str row artifact_col in
          let psr = get_str row "source_record_id" in
          All-append IsRated
            (corroborate_row float_is artifact_col psr_sources attesting row artifact psr)
            (corroborate float_is artifact_col psr_sources attesting rows)
            (corroborate_row-All IsRated row artifact psr (updated-IsRated col row))
            (corroborate-All col rows)

      is_current-IsRated :
          (row : Row) (n : ℕ)
          → get row "corroboration_count" ≡ some (int (pos n))
          → get row "is_provisional" ≡ some (bool (ltb n provisional_threshold))
          → is_current float_is row n ≡ true
      unfolding is_number
      is_current-IsRated row n c p = rw (c, p) (ground arith)

      corroborate_rated :
          (rows : List Row)
          → All IsRated rows
          → corroborate float_is artifact_col psr_sources attesting rows ≡ []
      unfolding corroborate corroborate_row
      corroborate_rated [] h = refl
      corroborate_rated (row ∷ rows) ((a, p, ea, ep, ec, et, two), h) =
          rw
            (
              ea,
              ep,
              is_current-IsRated row (length (sources_of psr_sources attesting a p)) ec et,
              corroborate_rated rows h,
            )
            refl

      -- A fact that has an artifact and a record states its corroboration, or its updated row is
      -- written.
      abbrev pub IsCovered : List Row → Row → Option String → Option String → Type 0
      IsCovered written row (some artifact) (some psr) =
          (is_current float_is row (length (sources_of psr_sources attesting artifact psr)) ≡ true)
          ⊎ Memᴰ (updated row (length (sources_of psr_sources attesting artifact psr))) written
      IsCovered written row (some artifact) none = Unit
      IsCovered written row none psr = Unit

      abbrev pub Covers : List Row → Row → Type 0
      Covers written row =
          IsCovered written row (get_str row artifact_col) (get_str row "source_record_id")

      IsCovered-later :
          (earlier written : List Row) (row : Row) (artifact psr : Option String)
          → IsCovered written row artifact psr
          → IsCovered (earlier ++ written) row artifact psr
      IsCovered-later earlier written row (some a) (some p) (inl e) = inl e
      IsCovered-later earlier written row (some a) (some p) (inr m) =
          inr (Memᴰ.append_right earlier m)
      IsCovered-later earlier written row (some a) none h = tt
      IsCovered-later earlier written row none psr h = tt

      corroborate_row-IsCovered :
          (written : List Row) (row : Row) (artifact psr : Option String)
          → IsCovered
              (corroborate_row float_is artifact_col psr_sources attesting row artifact psr
                ++ written)
              row
              artifact
              psr
      unfolding corroborate_row is_number
      corroborate_row-IsCovered written row (some a) (some p) =
          elim (Bool-cases
            (is_current float_is row (length (sources_of psr_sources attesting a p)))) [
              | inl e ↦ inl e
              | inr e ↦ inr (rw e (Memᴰ.head refl))
            ]
      corroborate_row-IsCovered written row (some a) none = tt
      corroborate_row-IsCovered written row none psr = tt

      corroborate-Covers :
          (rows : List Row)
          → All (Covers (corroborate float_is artifact_col psr_sources attesting rows)) rows
      unfolding corroborate
      corroborate-Covers [] = tt
      corroborate-Covers (row ∷ rows) =
          let artifact = get_str row artifact_col in
          let psr = get_str row "source_record_id" in
          let here = corroborate_row float_is artifact_col psr_sources attesting row artifact psr in
          let written = corroborate float_is artifact_col psr_sources attesting rows in
          (
            corroborate_row-IsCovered written row artifact psr,
            All-imp
                (λ other.
                  IsCovered-later here written other (get_str other artifact_col)
                    (get_str other "source_record_id"))
                rows (corroborate-Covers rows),
          )

      -- Where the column that names the artifact is not one that is written, the sources that are
      -- counted for a fact are, each once, those other than enrichment that its record has or that
      -- are supplied for its artifact; every row that corroborate writes states their number and
      -- is provisional exactly if it is below the threshold; unless it is provisional, there are
      -- two different ones. Each fact with an artifact and a record is written so, unless its row
      -- already states it. A second run over the written rows writes none.
      pub corroborate-IsRated :
          IsArtifactColumn
          → (rows : List Row)
          → ((artifact psr : String)
              → IsSourceSet artifact psr (sources_of psr_sources attesting artifact psr))
            × All (Covers (corroborate float_is artifact_col psr_sources attesting rows)) rows
            × All IsRated (corroborate float_is artifact_col psr_sources attesting rows)
            × (corroborate float_is artifact_col psr_sources attesting
                  (corroborate float_is artifact_col psr_sources attesting rows)
                ≡ [])
      corroborate-IsRated col rows =
          let h = corroborate-All col rows in
          (
            sources_of-IsSourceSet,
            corroborate-Covers rows,
            h,
            corroborate_rated (corroborate float_is artifact_col psr_sources attesting rows) h,
          )
