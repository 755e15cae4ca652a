-- ===== src/Er/Pipeline/Review.antt =====
-- The review rows: who is proposed to whom, and that no pair is queued twice.
use hacknation_hackathon.Base.{
  ℕ, suc, ◌≤◌, String, ◌≡◌, ◌≢◌, refl, sym, ◌∙◌, ◌⊎◌, eqb, Bool, ◌&&◌, inl, inr, Option, none, some,
  List, [], ◌∷◌, map, arith, eq_iff, Bool-cases, if◌then◌else◌,
}
use hacknation_hackathon.Base.Dict.{Dict, get}
use hacknation_hackathon.Base.Float.{Float, float_lt}
use hacknation_hackathon.Base.Sort.{sort_by, insert_by}
use hacknation_hackathon.Json.{Row}
use hacknation_hackathon.Er.Models.{ReviewItem}
use hacknation_hackathon.Er.Cluster.{ClusterResult}
use hacknation_hackathon.Er.Pipeline.{
  Libraries, MatchState, Key, key_of, key_eq, put_best, best_items, ReviewRow, review_row,
  review_items, review_rows, pair_item, subject_of, pair_review_item,
}

pair_item_cases :
    (anchored : List String) (left right : String) (score : Float) (method : String)
    (features : Row) (a b : String) {item : ReviewItem}
    → pair_item anchored left right score method features (some a) (some b) ≡ some item
    → (a ≢ b)
      × (((item.source_record_id ≡ left) × (item.candidate_person_id ≡ b))
          ⊎ ((item.source_record_id ≡ right) × (item.candidate_person_id ≡ a)))
unfolding pair_item subject_of
pair_item_cases anchored left right score method features a b h = ground (arith, eq_iff a b)

separate :
    (anchored : List String) (left right : String) (score : Float) (method : String)
    (features : Row) (person_of : Dict String) (pl pr : Option String) {item : ReviewItem}
    → get person_of left ≡ pl
    → get person_of right ≡ pr
    → pair_item anchored left right score method features pl pr ≡ some item
    → (p : String) × (get person_of item.source_record_id ≡ some p) × (p ≢ item.candidate_person_id)
unfolding pair_item
separate anchored left right score method features person_of none pr el er h = cc
separate anchored left right score method features person_of (some a) none el er h = cc
separate anchored left right score method features person_of (some a) (some b) el er h =
    let (ne, side) = pair_item_cases anchored left right score method features a b h in
    elim side [
      | inl (es, ec) ↦ (a, rw es el, λ e. ne (e ∙ ec))
      | inr (es, ec) ↦ (b, rw es er, λ e. ne (sym (e ∙ ec)))
    ]

-- The subject of a review item that is made of an uncertain pair has a person, and it is not the
-- proposed candidate; the items of ejected records are not meant.
pub pair_review_item_separate :
    (left right : String) (person_of : Dict String) (anchored : List String) (score : Float)
    (method : String) (features : Row) {item : ReviewItem}
    → pair_review_item left right person_of anchored score method features ≡ some item
    → (p : String) × (get person_of item.source_record_id ≡ some p) × (p ≢ item.candidate_person_id)
unfolding pair_review_item
pair_review_item_separate left right person_of anchored score method features h =
    separate anchored left right score method features person_of (get person_of left)
      (get person_of right) refl refl h

abbrev count_items : Key → List ReviewItem → ℕ
count_items k [] = 0
count_items k (x ∷ xs) = if key_eq (key_of x) k then suc (count_items k xs) else count_items k xs

abbrev row_key : ReviewRow → Key
row_key r = (r.source_record_id, r.candidate_person_id)

-- How many rows are queued for a pair.
abbrev pub count_rows : Key → List ReviewRow → ℕ
count_rows k [] = 0
count_rows k (x ∷ xs) = if key_eq (row_key x) k then suc (count_rows k xs) else count_rows k xs

-- A replaced item keeps its key, and a new key is added once.
count_items-put_best :
    (k : Key) (item : ReviewItem) (xs : List ReviewItem)
    → count_items k (put_best item xs)
      ≡ (if key_eq (key_of item) k && eqb (count_items k xs) 0 then 1 else count_items k xs)
unfolding put_best
count_items-put_best k item [] = ground arith
count_items-put_best k item (x ∷ xs) = elim (Bool-cases (float_lt x.score item.score)) [
  | inl e ↦ rw e (
      ground (
        arith,
        eq_iff x.source_record_id item.source_record_id,
        eq_iff x.source_record_id k.0,
        eq_iff item.source_record_id k.0,
        eq_iff x.candidate_person_id item.candidate_person_id,
        eq_iff x.candidate_person_id k.1,
        eq_iff item.candidate_person_id k.1,
        count_items-put_best k item xs,
      ))
  | inr e ↦ rw e (
      ground (
        arith,
        eq_iff x.source_record_id item.source_record_id,
        eq_iff x.source_record_id k.0,
        eq_iff item.source_record_id k.0,
        eq_iff x.candidate_person_id item.candidate_person_id,
        eq_iff x.candidate_person_id k.1,
        eq_iff item.candidate_person_id k.1,
        count_items-put_best k item xs,
      ))
]

count_items-best_items :
    (k : Key) (best items : List ReviewItem)
    → count_items k best ≤ 1
    → count_items k (best_items best items) ≤ 1
unfolding best_items
count_items-best_items k best [] h = h
count_items-best_items k best (item ∷ rest) h =
    count_items-best_items k (put_best item best) rest
      (ground (arith, count_items-put_best k item best, h))

count_items-insert_by :
    (less : ReviewItem → ReviewItem → Bool) (k : Key) (x : ReviewItem) (xs : List ReviewItem)
    → count_items k (insert_by less x xs) ≡ count_items k (x ∷ xs)
unfolding insert_by
count_items-insert_by less k x [] = refl
count_items-insert_by less k x (y ∷ ys) = elim (Bool-cases (less y x)) [
  | inl e ↦ rw e (ground (arith, count_items-insert_by less k x ys))
  | inr e ↦ rw e refl
]

count_items-sort_by :
    (less : ReviewItem → ReviewItem → Bool) (k : Key) (xs : List ReviewItem)
    → count_items k (sort_by less xs) ≡ count_items k xs
unfolding sort_by
count_items-sort_by less k [] = refl
count_items-sort_by less k (x ∷ xs) =
    ground (arith, count_items-insert_by less k x (sort_by less xs), count_items-sort_by less k xs)

count_rows-map :
    (lib : Libraries) (now : ℕ) (k : Key) (xs : List ReviewItem)
    → count_rows k (map (review_row lib now) xs) ≡ count_items k xs
count_rows-map lib now k [] = refl
count_rows-map lib now k (x ∷ xs) = ground (arith, count_rows-map lib now k xs)

-- A pair of a record and a candidate person is queued for review at most once in a run.
pub review_rows_once :
    (lib : Libraries) (person_of : Dict String) (anchored : List String) (guard : ClusterResult)
    (state : MatchState) (now : ℕ) (k : Key)
    → count_rows k (review_rows lib person_of anchored guard state now) ≤ 1
unfolding review_rows
review_rows_once lib person_of anchored guard state now k =
    let found = best_items [] (review_items lib person_of anchored guard state) in
    rw (count_rows-map, count_items-sort_by)
      (count_items-best_items k [] (review_items lib person_of anchored guard state) (omega arith))
