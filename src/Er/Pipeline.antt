-- ===== src/Er/Pipeline.antt =====
-- er/pipeline.py: `_active_links`, `_link_and_mint` with the review rows, and the assertion that every
-- record ends with one active link. The stages that find the matches are arguments here.
pub mod OneLink
pub mod Review
pub mod Stages
pub mod Run
mod Tests
use Prim.Native.String.{◌++◌ as str_append}
use hacknation_hackathon.Base.{
  ℕ, suc, String, Bool, true, false, not, ◌&&◌, ◌||◌, Option, none, some, List, [], ◌∷◌, ◌++◌, map,
  ◌==◌, eqb, is_some, contains, select, Result, ok, err, ◌>>=◌, if◌then◌else◌,
}
use hacknation_hackathon.Base.Dict.{Dict, get, insert, keys}
use hacknation_hackathon.Base.Float.{Float, float_lt}
use hacknation_hackathon.Base.Sort.{sort_by, str_lt}
use hacknation_hackathon.Json.{Row, str}
use hacknation_hackathon.Er.Models.{PsrView, RuleMatch, ScoredPair, ReviewItem}
use hacknation_hackathon.Er.Allocator.{Allocator, active_links_from}
use hacknation_hackathon.Er.Graph.{Edges}
use hacknation_hackathon.Er.Cluster.{
  ClusterResult, ClusterError, LinkRow, link_row, psr_ids, components, guard_same_source,
  build_links, review_item_from_ejection,
}

-- `_active_links`
abbrev pub active_links : List Row → Dict String
active_links = active_links_from []

-- The functions that come from outside: uuid5 of the standard library under the fixed namespace,
-- networkx, and `round` to four places.
pub record Libraries : Type 0 where
  pub uuid5 : String → String
  pub connected_components : Edges → List (List String)
  pub round4 : Float → Float

pub record MatchState : Type 0 where
  pub matches : List RuleMatch
  pub adjudication_rows : List Row
  pub d6_pairs : List RuleMatch
  pub review_pairs : List (ScoredPair × String × Row)

pub record ErDeps (S : Type 0) : Type 0 where
  pub allocator : Allocator S
  -- the two readings of the clock, first that of `_link_and_mint` and then that of `build_links`
  pub now : ℕ
  pub link_now : ℕ
  pub pipeline_version : String

-- MINT_METHOD, MINT_CONFIDENCE (0.95) and MINT_EVIDENCE
abbrev pub mint_method : String
mint_method = "seed_fixture"

abbrev pub mint_confidence : Float
mint_confidence = record { bits = 0x3FEE666666666666 }

abbrev pub mint_evidence : Row
mint_evidence = ("rule", str "fixture seed") ∷ []

sources_of : List PsrView → Dict String → Dict String
sources_of [] d = d
sources_of (v ∷ vs) d = sources_of vs (insert v.source_record_id v.source d)

-- `person_of[psr] = person` for each new link
note_links : List LinkRow → Dict String → Dict String
note_links [] person_of = person_of
note_links (l ∷ ls) person_of = note_links ls (insert l.source_record_id l.person_id person_of)

pub record Minted (S : Type 0) : Type 0 where
  pub links : List LinkRow
  pub person_of : Dict String
  pub state : S

module _ {S : Type 0} (lib : Libraries) (deps : ErDeps S) where
  -- One round of the loop that mints a person for a record which no link names.
  mint_view : PsrView → Minted S → Minted S
  unfolding link_row
  mint_view v m =
      let psr = v.source_record_id in
      if is_some (get m.person_of psr)
      then m
      else (let (person, s) = deps.allocator (psr ∷ []) m.state in
          record {
            links =
                m.links
                ++ link_row lib.uuid5 person psr mint_method mint_confidence mint_evidence deps.now
                    deps.pipeline_version
                  ∷ [];
            person_of = insert psr person m.person_of;
            state = s;
          })

  mint_views : List PsrView → Minted S → Minted S
  unfolding mint_view
  mint_views [] m = m
  mint_views (v ∷ vs) m = mint_views vs (mint_view v m)

-- The newcomer's side of a pair.
subject_of : List String → String → String → String → String → String × String
subject_of anchored left right person_left person_right =
    if not (contains left anchored)
    then (left, person_right)
    else if not (contains right anchored)
    then (right, person_left)
    else if str_lt right left || (right == left && str_lt person_left person_right)
    then (right, person_left)
    else (left, person_right)

pair_item :
    List String
    → String
    → String
    → Float
    → String
    → Row
    → Option String
    → Option String
    → Option ReviewItem
unfolding subject_of
pair_item anchored left right score method features (some person_left) (some person_right) =
    if person_left == person_right
    then none
    else (let (subject, candidate) = subject_of anchored left right person_left person_right in
        some (record {
          source_record_id = subject;
          candidate_person_id = candidate;
          score = score;
          method = method;
          features = features;
        }))
pair_item anchored left right score method features (some person_left) none = none
pair_item anchored left right score method features none person_right = none

unfoldable pub pair_review_item :
    String → String → Dict String → List String → Float → String → Row → Option ReviewItem
unfolding pair_item
pair_review_item left right person_of anchored score method features =
    pair_item anchored left right score method features (get person_of left) (get person_of right)

-- `f` of each element, without the None.
collect {ℓ κ} : {A : Type ℓ} {B : Type κ} → (A → Option B) → List A → List B
collect f [] = []
collect f (x ∷ xs) = let rest = collect f xs in elim (f x) [ some y ↦ y ∷ rest | none ↦ rest ]

-- All candidates, in the order of the three loops of `_review_rows`.
review_items : Libraries → Dict String → List String → ClusterResult → MatchState → List ReviewItem
unfolding collect
review_items lib person_of anchored guard state =
    collect
      (λ (m : RuleMatch).
        pair_review_item m.left m.right person_of anchored m.confidence "det_name_org" m.evidence)
      state.d6_pairs
    ++ (collect
          (λ ((p, kind, features) : ScoredPair × String × Row).
            pair_review_item p.left p.right person_of anchored (lib.round4 p.probability) kind
              features)
          state.review_pairs
        ++ collect (λ e. review_item_from_ejection e person_of) guard.ejected)

abbrev pub Key : Type 0
Key = String × String

abbrev pub key_of : ReviewItem → Key
key_of item = (item.source_record_id, item.candidate_person_id)

abbrev pub key_eq : Key → Key → Bool
key_eq (a, b) (c, d) = a == c && b == d

abbrev key_lt : Key → Key → Bool
key_lt (a, b) (c, d) = str_lt a c || (a == c && str_lt b d)

-- The dict `best`, by its items: an item replaces one of the same key with a smaller score.
unfoldable pub put_best : ReviewItem → List ReviewItem → List ReviewItem
put_best item [] = item ∷ []
put_best item (current ∷ rest) =
    if key_eq (key_of current) (key_of item)
    then (if float_lt current.score item.score then item else current) ∷ rest
    else current ∷ put_best item rest

unfoldable pub best_items : List ReviewItem → List ReviewItem → List ReviewItem
unfolding put_best
best_items best [] = best
best_items best (item ∷ rest) = best_items (put_best item best) rest

-- One row of ops.er_review_queue.
pub record ReviewRow : Type 0 where
  pub review_id : String
  pub source_record_id : String
  pub candidate_person_id : String
  pub score : Float
  pub method : String
  pub features : Row
  pub status : String
  pub decided_by : Option String
  pub decided_at : Option ℕ
  pub created_at : ℕ

abbrev pub review_id : Libraries → ReviewItem → String
review_id lib item = lib.uuid5 (
    str_append "er_review:" (
      str_append item.source_record_id
        (str_append ":" (str_append item.candidate_person_id (str_append ":" item.method)))))

abbrev pub review_row : Libraries → ℕ → ReviewItem → ReviewRow
review_row lib now item = record {
  review_id = review_id lib item;
  source_record_id = item.source_record_id;
  candidate_person_id = item.candidate_person_id;
  score = item.score;
  method = item.method;
  features = item.features;
  status = "pending";
  decided_by = none;
  decided_at = none;
  created_at = now;
}

unfoldable pub review_rows :
    Libraries → Dict String → List String → ClusterResult → MatchState → ℕ → List ReviewRow
unfolding review_items best_items
review_rows lib person_of anchored guard state now = map (review_row lib now) (
    sort_by (λ a b. key_lt (key_of a) (key_of b))
      (best_items [] (review_items lib person_of anchored guard state)))

-- The result of the stage: with the rows, the final `person_of` that `run_pipeline` reads on.
pub record Outcome (S : Type 0) : Type 0 where
  pub links : List LinkRow
  pub reviews : List ReviewRow
  pub person_of : Dict String
  pub state : S

usable_matches : Dict String → List RuleMatch → List RuleMatch
usable_matches linked =
    select (λ m. not (is_some (get linked m.left) && is_some (get linked m.right)))

-- What follows on `build_links`: the persons of the new links, the minting loop and the review rows.
mint_and_review :
    {S : Type 0}
    → Libraries
    → ErDeps S
    → List PsrView
    → Dict String
    → MatchState
    → ClusterResult
    → List LinkRow × S
    → Outcome S
unfolding note_links mint_views
mint_and_review lib deps views linked state guard (new_links, s) =
    let anchored = keys linked ++ psr_ids new_links in
    let minted =
      mint_views lib deps views
        (record { links = new_links; person_of = note_links new_links linked; state = s }) in
    record {
      links = minted.links;
      reviews = review_rows lib minted.person_of anchored guard state deps.now;
      person_of = minted.person_of;
      state = minted.state;
    }

abbrev guard_of : Libraries → List PsrView → List RuleMatch → ClusterResult
guard_of lib views usable =
    guard_same_source (sources_of views []) (components lib.connected_components usable)

unfoldable pub link_and_mint :
    {S : Type 0}
    → Libraries
    → ErDeps S
    → List PsrView
    → Dict String
    → MatchState
    → S
    → Result ClusterError (Outcome S)
unfolding usable_matches sources_of mint_and_review
link_and_mint lib deps views linked state s =
    let usable = usable_matches linked state.matches in
    let guard = guard_of lib views usable in
    do
      built ←
          build_links lib.uuid5 linked usable deps.link_now deps.pipeline_version deps.allocator
            guard.clusters s
      ok (mint_and_review lib deps views linked state guard built)

-- The error of `_assert_one_active_link`: the record and its number of links.
pub data LinkInvariantError : Type 0 where
  link_invariant : String → ℕ → LinkInvariantError

-- `counts[psr] += 1`, if `psr in counts`
bump : String → Dict ℕ → Dict ℕ
bump psr [] = []
bump psr ((k, n) ∷ d) =
    let rest = bump psr d in if k == psr then (k, suc n) ∷ rest else (k, n) ∷ rest

bumps : List String → Dict ℕ → Dict ℕ
bumps [] d = d
bumps (psr ∷ psrs) d = bumps psrs (bump psr d)

-- `dict.fromkeys(views, 0)`
zeros : List PsrView → Dict ℕ
zeros [] = []
zeros (v ∷ vs) = (v.source_record_id, 0) ∷ zeros vs

check_counts : List (String × ℕ) → Result LinkInvariantError (Unit {0})
check_counts [] = ok tt
check_counts ((psr, n) ∷ d) =
    let rest = check_counts d in if eqb n 1 then rest else err (link_invariant psr n)

unfoldable pub assert_one_active_link :
    List PsrView → Dict String → List LinkRow → Result LinkInvariantError (Unit {0})
unfolding check_counts bumps bump zeros
assert_one_active_link views linked new_links = check_counts (
    sort_by (λ a b. str_lt a.0 b.0) (bumps (psr_ids new_links) (bumps (keys linked) (zeros views))))
