-- ===== src/Er/Graph.antt =====
-- The part of networkx that er/cluster.py calls: the connected components of a graph given by its
-- edges. The library is not modelled; `Components` states what its documentation promises, and
-- `union_components` is a function that keeps the promise.
use hacknation_hackathon.Base.{
  ◌+◌, ◌≤◌, String, Bool, true, false, List, [], ◌∷◌, ◌++◌, ◌≡◌, ◌==◌, ◌||◌, refl, arith, eq_iff,
  concat, contains, count, count-append, count_of_contains, if◌then◌else◌, Bool-cases,
  count_of_not_contains, inl, inr,
}

abbrev pub Edges : Type 0
Edges = List (String × String)

abbrev pub is_node : String → Edges → Bool
is_node a [] = false
is_node a ((u, v) ∷ es) = u == a || v == a || is_node a es

-- Each node of the graph lies in exactly one component, once, and nothing else does.
pub record Components (connected_components : Edges → List (List String)) : Type 0 where
  pub partition :
      (es : Edges) (a : String)
      → count a (concat (connected_components es)) ≡ (if is_node a es then 1 else 0)

abbrev add : String → List String → List String
add x xs = if contains x xs then xs else x ∷ xs

touches : String → String → List String → Bool
touches u v block = contains u block || contains v block

-- The members of the blocks that hold an end of the edge, and the other blocks.
touched : String → String → List (List String) → List String
touched u v [] = []
touched u v (b ∷ bs) = if touches u v b then b ++ touched u v bs else touched u v bs

untouched : String → String → List (List String) → List (List String)
untouched u v [] = []
untouched u v (b ∷ bs) = if touches u v b then untouched u v bs else b ∷ untouched u v bs

join : String → String → List (List String) → List (List String)
unfolding touched untouched touches
join u v bs = add u (add v (touched u v bs)) ∷ untouched u v bs

unfoldable pub union_components : Edges → List (List String)
unfolding join
union_components [] = []
union_components ((u, v) ∷ es) = join u v (union_components es)

count-touched :
    (u v a : String) (bs : List (List String))
    → count a (touched u v bs) + count a (concat (untouched u v bs)) ≡ count a (concat bs)
unfolding touched untouched
count-touched u v a [] = refl
count-touched u v a (b ∷ bs) = elim (Bool-cases (touches u v b)) [
  | inl e ↦ rw e (
      omega (
        arith,
        count-append a b (touched u v bs),
        count-append a b (concat bs),
        count-touched u v a bs,
      ))
  | inr e ↦ rw e (
      omega (
        arith,
        count-append a b (concat (untouched u v bs)),
        count-append a b (concat bs),
        count-touched u v a bs,
      ))
]

-- An end of the edge is in no block that is left.
count-untouched :
    (u v a : String) (bs : List (List String))
    → ((u == a) || (v == a)) ≡ true
    → count a (concat (untouched u v bs)) ≡ 0
unfolding untouched touches
count-untouched u v a [] h = refl
count-untouched u v a (b ∷ bs) h = elim (Bool-cases (touches u v b)) [
  | inl e ↦ ground (arith, e, count-untouched u v a bs h)
  | inr e ↦ ground (
    arith,
    e,
    eq_iff u a,
    eq_iff v a,
    count_of_not_contains u b,
    count_of_not_contains v b,
    count-append a b (concat (untouched u v bs)),
    count-untouched u v a bs h,
  )
]

count-add :
    (u a : String) (xs : List String)
    → count a (add u xs)
      ≡ (if u == a then (if contains u xs then count a xs else 1) else count a xs)
count-add u a xs = ground (arith, eq_iff u a, count_of_not_contains u xs)

-- Joining the blocks at an edge puts the two ends into one block, and moves no other member.
count-join :
    (u v a : String) (bs : List (List String))
    → count a (concat bs) ≤ 1
    → count a (concat (join u v bs)) ≡ (if u == a || v == a then 1 else count a (concat bs))
unfolding join
count-join u v a bs h =
    let inner = add v (touched u v bs) in
    ground (
      arith,
      eq_iff u a,
      eq_iff v a,
      count-append a (add u inner) (concat (untouched u v bs)),
      count-add u a inner,
      count-add v a (touched u v bs),
      count-touched u v a bs,
      count-untouched u v a bs,
      count_of_contains u inner,
      count_of_contains v (touched u v bs),
    )

union_components_partition :
    (es : Edges) (a : String)
    → count a (concat (union_components es)) ≡ (if is_node a es then 1 else 0)
unfolding union_components
union_components_partition [] a = refl
union_components_partition ((u, v) ∷ es) a =
    ground (arith, union_components_partition es a, count-join u v a (union_components es))

pub union_components-Components : Components union_components
union_components-Components = record { partition = union_components_partition }
