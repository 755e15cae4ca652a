-- ===== src/Er/Rules/Reasons.antt =====
-- er/rules.py: why deterministic_matches and hacknation_matches match two records.
use hacknation_hackathon.Base.{
  some-injective, String, ◌≡◌, refl, ◌⊎◌, inl, inr, Bool, true, not, ◌||◌, Option, none, some, List,
  [], ◌∷◌, All, All-imp, All-append, Bool-cases, subst,
}
use hacknation_hackathon.Base.Sort.{sort_by, All-sort_by}
use hacknation_hackathon.Base.Dict.{Dict, get}
use hacknation_hackathon.Base.Float.{float_lt, float_le}
use mathlib.Core.List.{Memᴰ}
use hacknation_hackathon.Er.Models.{PsrView, RuleMatch, Method, det_crosslink, det_hn_repo}
use hacknation_hackathon.Er.Crosslinks.{Pair, PairDict}
use hacknation_hackathon.Er.Rules.Pairs.{Paired, Before, All-Memᴰ, All-listed, all_pairs-Paired}
use hacknation_hackathon.Er.Rules.{
  Scoring, d5, d8, all_pairs, by_record_id, both, candidate_matches, name_jw, name_jw_threshold,
  name_jw_d8, login_matches_name, deterministic_matches, hacknation_matches, pair_lt, by_ids,
}

module _ (lib : Scoring) where
  -- A match on a candidate pair: the two ids of the pair, and a rule that holds of their two records.
  abbrev pub Proposed :
      Method
      → (PsrView → PsrView → Bool)
      → Dict PsrView
      → (Pair × String → Type 0)
      → RuleMatch
      → Type 0
  Proposed method passes by_id In m =
      (c : Pair × String) × (a : PsrView) × (b : PsrView) × In c
      × (get by_id c.0.0 ≡ some a)
      × (get by_id c.0.1 ≡ some b)
      × (passes a b ≡ true)
      × ((m.left, m.right) ≡ c.0)
      × (m.method ≡ method)

  abbrev pub passes_d5 : PsrView → PsrView → Bool
  passes_d5 a b = float_le name_jw_threshold (name_jw lib a b) || login_matches_name lib a b

  abbrev pub passes_d8 : PsrView → PsrView → Bool
  passes_d8 a b = not (float_lt (name_jw lib a b) name_jw_d8)

  -- What a rule says of the pair that it matches.
  abbrev Says :
      Method
      → (PsrView → PsrView → Bool)
      → (Pair → String → PsrView → PsrView → Option RuleMatch)
      → Type 0
  Says method passes rule =
      (pair : Pair) (text : String) (a b : PsrView) (m : RuleMatch)
      → rule pair text a b ≡ some m
      → (passes a b ≡ true) × ((m.left, m.right) ≡ pair) × (m.method ≡ method)

  d5-Says : Says det_crosslink passes_d5 (d5 lib)
  unfolding d5
  d5-Says pair text a b m h = elim (Bool-cases (passes_d5 a b)) [
    | inl e ↦
        subst
          (λ (n : RuleMatch).
            (passes_d5 a b ≡ true) × ((n.left, n.right) ≡ pair) × (n.method ≡ det_crosslink))
          (some-injective (rw (d5, e) at h)) (e, refl, refl)
    | inr e ↦ absurd (let k = rw (d5, e) at h in cc)
  ]

  d8-Says : Says det_hn_repo passes_d8 (d8 lib)
  unfolding d8
  d8-Says pair text a b m h = elim (Bool-cases (float_lt (name_jw lib a b) name_jw_d8)) [
    | inr e ↦
        subst
          (λ (n : RuleMatch).
            (passes_d8 a b ≡ true) × ((n.left, n.right) ≡ pair) × (n.method ≡ det_hn_repo))
          (some-injective (rw (d8, e) at h)) (rw e refl, refl, refl)
    | inl e ↦ absurd (let k = rw (d8, e) at h in cc)
  ]

  module _ (method : Method) (passes : PsrView → PsrView → Bool)
      (rule : Pair → String → PsrView → PsrView → Option RuleMatch) (says : Says method passes rule)
      (by_id : Dict PsrView) (In : Pair × String → Type 0) where
    both-Proposed :
        (pair : Pair) (text : String) (a b : Option PsrView)
        → In (pair, text)
        → get by_id pair.0 ≡ a
        → get by_id pair.1 ≡ b
        → All (Proposed method passes by_id In) (both lib (rule pair text) a b)
    unfolding both
    both-Proposed pair text none b h ea eb = tt
    both-Proposed pair text (some a) none h ea eb = tt
    both-Proposed pair text (some a) (some b) h ea eb =
        All-listed (Proposed method passes by_id In) (rule pair text a b) (λ m e.
          let (ok_, ids, meth) = says pair text a b m e in
          ((pair, text), a, b, h, ea, eb, ok_, ids, meth))

    candidate_matches-Proposed :
        (pairs : PairDict)
        → All In pairs
        → All (Proposed method passes by_id In) (candidate_matches lib rule by_id pairs)
    unfolding candidate_matches
    candidate_matches-Proposed [] h = tt
    candidate_matches-Proposed ((pair, text) ∷ pairs) h =
        All-append (Proposed method passes by_id In)
          (both lib (rule pair text) (get by_id pair.0) (get by_id pair.1))
          (candidate_matches lib rule by_id pairs)
          (both-Proposed pair text (get by_id pair.0) (get by_id pair.1) h.0 refl refl)
          (candidate_matches-Proposed pairs h.1)

module _ (lib : Scoring) where
  -- Where a match of the rules D1 to D7 comes from.
  abbrev pub Grounded : List PsrView → PairDict → RuleMatch → Type 0
  Grounded views candidates m =
      Paired lib (λ a. Memᴰ a views) (Before (by_record_id lib views)) m
      ⊎ Proposed lib det_crosslink (passes_d5 lib) (by_ids lib (by_record_id lib views) [])
          (λ c. Memᴰ c candidates) m

  -- Every match that deterministic_matches gives is either of two records of the run, at different
  -- places of the list by record id, that share what its rule names (an ORCID, an address, a
  -- website, a handle or a GitHub URL, a LinkedIn URL, or a name and an organisation, the last not
  -- automatic), or of a candidate pair whose two records have similar names or a login that is the
  -- name.
  pub deterministic_matches-Grounded :
      (views : List PsrView) (candidates : PairDict)
      → All (Grounded views candidates) (deterministic_matches lib views candidates)
  unfolding deterministic_matches
  deterministic_matches-Grounded views candidates =
      let In : PsrView → Type 0 = λ a. Memᴰ a views in
      let InC : Pair × String → Type 0 = λ c. Memᴰ c candidates in
      let ordered_views = by_record_id lib views in
      let by_id = by_ids lib ordered_views [] in
      All-append (Grounded views candidates) _ _
        (All-imp (λ m h. inl h) (all_pairs lib ordered_views)
          (all_pairs-Paired lib In ordered_views (All-sort_by _ In views (All-Memᴰ views))))
        (All-imp (λ m h. inr h)
          (candidate_matches lib (d5 lib) by_id (sort_by (pair_lt lib) candidates))
          (candidate_matches-Proposed lib det_crosslink (passes_d5 lib) (d5 lib) (d5-Says lib) by_id
            InC (sort_by (pair_lt lib) candidates)
            (All-sort_by _ InC candidates (All-Memᴰ candidates))))

  -- Every match of rule D8 is of a candidate pair, carries its two ids, and both records are known
  -- and their names are not below the D8 threshold in similarity.
  pub hacknation_matches-Proposed :
      (views : Dict PsrView) (candidates : PairDict)
      → All
          (Proposed lib det_hn_repo (passes_d8 lib) views (λ c. Memᴰ c candidates))
          (hacknation_matches lib views candidates)
  unfolding hacknation_matches
  hacknation_matches-Proposed views candidates =
      candidate_matches-Proposed lib det_hn_repo (passes_d8 lib) (d8 lib) (d8-Says lib) views
        (λ c. Memᴰ c candidates) (sort_by (pair_lt lib) candidates)
        (All-sort_by _ (λ c. Memᴰ c candidates) candidates (All-Memᴰ candidates))
