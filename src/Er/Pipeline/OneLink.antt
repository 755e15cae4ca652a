-- ===== src/Er/Pipeline/OneLink.antt =====
-- Every record ends the run with exactly one active link.
use hacknation_hackathon.Base.{
  ℕ, ◌+◌, ◌≤◌, String, ◌≡◌, refl, ◌∙◌, ◌⊎◌, Bool, true, not, ◌&&◌, ◌||◌, inl, inr, none, List, [],
  ◌∷◌, arith, ◌==◌, eq_iff, contains, count, count-append, count_of_contains, count_of_not_contains,
  concat, All, All-select, Bool-cases, is_some, if◌then◌else◌, ok,
}
use hacknation_hackathon.Base.Dict.{Dict, get, insert, keys, IsDict, get-insert}
use hacknation_hackathon.Base.Sort.{All-sort_by, count-concat-sort_by}
use hacknation_hackathon.Er.Models.{PsrView, RuleMatch}
use hacknation_hackathon.Er.Graph.{Components}
use hacknation_hackathon.Er.Cluster.{LinkRow, psr_ids, components, guard_same_source, auto_edges}
use hacknation_hackathon.Er.Cluster.Links.{
  psr_ids-append, HasPriority, build_links_fresh, build_links_total,
}
use hacknation_hackathon.Er.Cluster.Guard.{guard_same_source_keeps_members}
use hacknation_hackathon.Er.Pipeline.{
  Libraries, ErDeps, MatchState, Minted, Outcome, mint_view, mint_views, note_links, link_and_mint,
  mint_and_review, guard_of, usable_matches, sources_of, bump, bumps, zeros, check_counts,
  assert_one_active_link,
}

-- 1 for a key that the dict has, else 0.
abbrev pub known {ℓ} : {V : Type ℓ} → Dict V → String → ℕ
known d a = if is_some (get d a) then 1 else 0

get-note_links :
    (ls : List LinkRow) (d : Dict String) (a : String)
    → is_some (get (note_links ls d) a) ≡ (is_some (get d a) || contains a (psr_ids ls))
unfolding note_links
get-note_links [] d a = ground arith
get-note_links (l ∷ ls) d a = ground (
  arith,
  get-note_links ls (insert l.source_record_id l.person_id d) a,
  get-insert l.source_record_id a l.person_id d,
  eq_iff l.source_record_id a,
)

count_fresh :
    (linked : Dict String) (a : String) (rows : List LinkRow)
    → All (λ r. (r.status ≡ "active") × (get linked r.source_record_id ≡ none)) rows
    → is_some (get linked a) ≡ true
    → count a (psr_ids rows) ≡ 0
count_fresh linked a [] h e = refl
count_fresh linked a (r ∷ rs) h e =
    ground (arith, h.0.1, eq_iff r.source_record_id a, count_fresh linked a rs h.1 e)

module _ {S : Type 0} (lib : Libraries) (deps : ErDeps S) (linked : Dict String) where
  -- A record has a new link just if it has a person and no link from before, and then one.
  abbrev Tallied : Minted S → Type 0
  Tallied m = (a : String) → count a (psr_ids m.links) + known linked a ≡ known m.person_of a

  Tallied-note_links :
      (rows : List LinkRow) (s : S)
      → All (λ r. (r.status ≡ "active") × (get linked r.source_record_id ≡ none)) rows
      → ((a : String) → count a (psr_ids rows) ≤ 1)
      → Tallied (record { links = rows; person_of = note_links rows linked; state = s })
  Tallied-note_links rows s fresh once a = ground (
    arith,
    get-note_links rows linked a,
    once a,
    count_fresh linked a rows fresh,
    count_of_contains a (psr_ids rows),
    count_of_not_contains a (psr_ids rows),
  )

  Tallied-mint_view : (v : PsrView) (m : Minted S) → Tallied m → Tallied (mint_view lib deps v m)
  unfolding mint_view
  Tallied-mint_view v m h a = elim (Bool-cases (is_some (get m.person_of v.source_record_id))) [
    | inl e ↦ rw e (h a)
    | inr e ↦
        let (person, s) = deps.allocator (v.source_record_id ∷ []) m.state in
        rw (e, psr_ids-append, count-append, get-insert)
          (ground (arith, h a, eq_iff v.source_record_id a))
  ]

  mint_view_known :
      (v : PsrView) (m : Minted S) (a : String)
      → is_some (get m.person_of a) ≡ true ⊎ (v.source_record_id ≡ a)
      → is_some (get (mint_view lib deps v m).person_of a) ≡ true
  unfolding mint_view
  mint_view_known v m a h = elim (Bool-cases (is_some (get m.person_of v.source_record_id))) [
    | inl e ↦ rw e (ground (arith, h, e))
    | inr e ↦ rw (e, get-insert) (ground (arith, h, eq_iff v.source_record_id a))
  ]

  mint_views_known :
      (vs : List PsrView) (m : Minted S) (a : String)
      → is_some (get m.person_of a) ≡ true
      → is_some (get (mint_views lib deps vs m).person_of a) ≡ true
  unfolding mint_views
  mint_views_known [] m a h = h
  mint_views_known (v ∷ vs) m a h =
      mint_views_known vs (mint_view lib deps v m) a (mint_view_known v m a (inl h))

  mint_views_lem :
      (vs : List PsrView) (m : Minted S)
      → Tallied m
      → Tallied (mint_views lib deps vs m)
        × All (λ v. is_some (get (mint_views lib deps vs m).person_of v.source_record_id) ≡ true) vs
  unfolding mint_views
  mint_views_lem [] m h = (h, tt)
  mint_views_lem (v ∷ vs) m h =
      let ih = mint_views_lem vs (mint_view lib deps v m) (Tallied-mint_view v m h) in
      (
        ih.0,
        (
          mint_views_known vs (mint_view lib deps v m) v.source_record_id
              (mint_view_known v m v.source_record_id (inr refl)),
          ih.1,
        ),
      )

module _ (P : String → Type 0) where
  -- The counts are those of `base`, and every key has `P`.
  abbrev Counts : (String → ℕ) → List (String × ℕ) → Type 0
  Counts base = All (λ e. (e.1 ≡ base e.0) × P e.0)

  -- `Counts` depends only on the values of `base` where `P` holds.
  Counts-ext :
      (f g : String → ℕ)
      → ((k : String) → P k → f k ≡ g k)
      → (d : List (String × ℕ)) → Counts f d
      → Counts g d
  Counts-ext f g e [] h = tt
  Counts-ext f g e ((k, n) ∷ d) h = ((h.0.0 ∙ e k h.0.1, h.0.1), Counts-ext f g e d h.1)

  bump-Counts :
      (psr : String) (base : String → ℕ) (d : Dict ℕ)
      → Counts base d
      → Counts (λ k. (if psr == k then 1 else 0) + base k) (bump psr d)
  unfolding bump
  bump-Counts psr base [] h = tt
  bump-Counts psr base ((k, n) ∷ d) h = elim (Bool-cases (k == psr)) [
    | inl e ↦
        rw e (
          (ground (arith, h.0.0, e, eq_iff k psr, eq_iff psr k), h.0.1),
          bump-Counts psr base d h.1,
        )
    | inr e ↦
        rw e (
          (ground (arith, h.0.0, e, eq_iff k psr, eq_iff psr k), h.0.1),
          bump-Counts psr base d h.1,
        )
  ]

  bumps-Counts :
      (psrs : List String) (base : String → ℕ) (d : Dict ℕ)
      → Counts base d
      → Counts (λ k. count k psrs + base k) (bumps psrs d)
  unfolding bumps
  bumps-Counts [] base d h = Counts-ext base (λ k. 0 + base k) (λ k _. omega arith) d h
  bumps-Counts (psr ∷ psrs) base d h =
      Counts-ext (λ k. count k psrs + ((if psr == k then 1 else 0) + base k))
        (λ k. count k (psr ∷ psrs) + base k) (λ k _. ground arith) (bumps psrs (bump psr d))
        (bumps-Counts psrs (λ k. (if psr == k then 1 else 0) + base k) (bump psr d)
          (bump-Counts psr base d h))

  zeros-Counts :
      (vs : List PsrView) → All (λ v. P v.source_record_id) vs → Counts (λ k. 0) (zeros vs)
  unfolding zeros
  zeros-Counts [] h = tt
  zeros-Counts (v ∷ vs) h = ((refl, h.0), zeros-Counts vs h.1)

  check_counts_ok : (d : List (String × ℕ)) → Counts (λ k. 1) d → check_counts d ≡ ok tt
  unfolding check_counts
  check_counts_ok [] h = refl
  check_counts_ok ((k, n) ∷ d) h = rw h.0.0 (check_counts_ok d h.1)

count-concat-components :
    (lib : Libraries) (matches : List RuleMatch) (a : String)
    → count a (concat (components lib.connected_components matches))
      ≡ count a (concat (lib.connected_components (auto_edges matches)))
unfolding components
count-concat-components lib matches a =
    count-concat-sort_by _ a (lib.connected_components (auto_edges matches))

known_one : (d : Dict String) (k : String) → is_some (get d k) ≡ true → known d k ≡ 1
known_one d k h = rw h refl

known_lem : (d : Dict String) (k : String) → known d k ≡ (if is_some (get d k) then 1 else 0)
known_lem d k = refl

module _ {S : Type 0} (lib : Libraries) (deps : ErDeps S)
    (graph : Components lib.connected_components) where
  -- A record lies in the guarded clusters at most once.
  clusters_once :
      (sources : Dict String) (matches : List RuleMatch) (a : String)
      → count a (
          concat (guard_same_source sources (components lib.connected_components matches)).clusters)
        ≤ 1
  clusters_once sources matches a = ground (
    arith,
    guard_same_source_keeps_members sources (components lib.connected_components matches) a,
    count-concat-components lib matches a,
    graph.partition (auto_edges matches) a,
  )

  -- Every record of `views` ends with one link, counting those from before.
  mint_and_review_one_link :
      (views : List PsrView) (linked : Dict String)
      → IsDict linked
      → (state : MatchState) (usable : List RuleMatch) (rows : List LinkRow) (s : S)
      → All (λ r. (r.status ≡ "active") × (get linked r.source_record_id ≡ none)) rows
      → ((a : String) → count a (psr_ids rows) ≤ 1)
      → assert_one_active_link views linked
          (mint_and_review lib deps views linked state (guard_of lib views usable) (rows, s)).links
        ≡ ok tt
  unfolding mint_and_review assert_one_active_link
  mint_and_review_one_link views linked dict state usable rows s fresh once =
      let start : Minted S = record {
        links = rows;
        person_of = note_links rows linked;
        state = s;
      } in
      let end = mint_views lib deps views start in
      let P : String → Type 0 = λ k. is_some (get end.person_of k) ≡ true in
      let minted =
        mint_views_lem lib deps linked views start
          (Tallied-note_links lib deps linked rows s fresh once) in
      let counted =
        bumps-Counts P (psr_ids end.links) (λ k. count k (keys linked) + 0)
          (bumps (keys linked) (zeros views))
          (bumps-Counts P (keys linked) (λ k. 0) (zeros views) (zeros-Counts P views minted.1)) in
      check_counts_ok P _ (
        All-sort_by _ _ _ (
          Counts-ext P _ (λ k. 1)
            (λ k pk.
              omega (arith, minted.0 k, dict k, known_one end.person_of k pk, known_lem linked k))
            _ counted))

  All-weaken :
      (p : RuleMatch → Bool) (ms : List RuleMatch)
      → All HasPriority ms
      → All (λ m. p m ≡ true → HasPriority m) ms
  All-weaken p [] h = tt
  All-weaken p (m ∷ ms) h = ((λ _. h.0), All-weaken p ms h.1)

  -- Where the graph library puts each node in exactly one component, every automatic match has a
  -- method of METHOD_PRIORITY and the active links form a dict, the linking stage does not raise
  -- and the assertion after it passes: each record of the run has exactly one active link,
  -- counting the links from before and the new ones.
  pub link_and_mint_one_link :
      (views : List PsrView) (linked : Dict String) (state : MatchState) (s : S)
      → IsDict linked
      → All HasPriority state.matches
      → (out : Outcome S) × (link_and_mint lib deps views linked state s ≡ ok out)
        × (assert_one_active_link views linked out.links ≡ ok tt)
  unfolding link_and_mint
  link_and_mint_one_link views linked state s dict known =
      let p : RuleMatch → Bool =
        λ m. not (is_some (get linked m.left) && is_some (get linked m.right)) in
      let usable = usable_matches linked state.matches in
      let guard = guard_of lib views usable in
      let (built, e) =
        build_links_total lib.uuid5 linked usable deps.link_now deps.pipeline_version deps.allocator
          (All-select HasPriority p state.matches (All-weaken p state.matches known)) guard.clusters
          s in
      let fresh =
        build_links_fresh lib.uuid5 linked usable deps.link_now deps.pipeline_version deps.allocator
          guard.clusters s e in
      (
        mint_and_review lib deps views linked state guard built,
        rw e refl,
        mint_and_review_one_link views linked dict state usable built.0 built.1 fresh.0
            (λ a. ground (arith, fresh.1 a, clusters_once (sources_of views []) usable a)),
      )
