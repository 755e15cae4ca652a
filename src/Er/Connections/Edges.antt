-- ===== src/Er/Connections/Edges.antt =====
-- er/connections.py: every edge joins two different persons, the smaller id first.
use hacknation_hackathon.Base.{
  ℕ, ◌≤◌, String, ◌≡◌, subst, true, false, inl, inr, none, some, List, [], ◌∷◌, ◌++◌, map, ◌==◌,
  arith, All, All-append, Bool-cases, Option-cases, ok, >>=-eq-ok, ok-injective,
}
use hacknation_hackathon.Base.Dict.{Dict}
use hacknation_hackathon.Base.Order.{by, Ordered, sort_by-Ordered, str_lt_total}
use hacknation_hackathon.Base.Sort.{sort_by, str_lt, All-sort_by}
use hacknation_hackathon.Json.{Row}
use hacknation_hackathon.Er.Connections.Once.{
  row_count, row_count-append, row_count-edge_rows, one_type,
}
use hacknation_hackathon.Er.Connections.{
  SharedArtifact, Membership, Connection, Calendar, Edge, memberships, shared_window, shared_pair,
  pairs_with, pairs_of, artifact_pairs, by_artifact, add_edge, add_edges, groups_edges, pair_edges,
  edge_eq, edge_lt, edge_row, edge_rows, closed, published_dates, build_connections,
}

-- The ids of a pair are in order.
abbrev Ascending : String × String → Type 0
Ascending (a, b) = str_lt a b ≡ true

abbrev AscendingPair : (String × String) × SharedArtifact → Type 0
AscendingPair p = Ascending p.0

shared_pair-Ascending :
    (artifact : String) (a b : Membership)
    → by (λ m. m.person_id) b a ≡ false
    → All AscendingPair (shared_pair artifact a b)
unfolding shared_pair
shared_pair-Ascending artifact a b h = elim (Bool-cases (a.person_id == b.person_id)) [
  | inl e ↦ rw e tt
  | inr e ↦ elim (Option-cases (shared_window a b)) [
    | inl w ↦ rw (e, w) tt
    | inr (w, ew) ↦ rw (e, ew) (str_lt_total a.person_id b.person_id h e, tt)
  ]
]

pairs_with-Ascending :
    (artifact : String) (a : Membership) (bs : List Membership)
    → All (λ b. by (λ (m : Membership). m.person_id) b a ≡ false) bs
    → All AscendingPair (pairs_with artifact a bs)
unfolding pairs_with
pairs_with-Ascending artifact a [] h = tt
pairs_with-Ascending artifact a (b ∷ bs) h =
    All-append AscendingPair (shared_pair artifact a b) (pairs_with artifact a bs)
      (shared_pair-Ascending artifact a b h.0) (pairs_with-Ascending artifact a bs h.1)

pairs_of-Ascending :
    (artifact : String) (ms : List Membership)
    → Ordered (λ (m : Membership). m.person_id) ms
    → All AscendingPair (pairs_of artifact ms)
unfolding pairs_of
pairs_of-Ascending artifact [] h = tt
pairs_of-Ascending artifact (a ∷ rest) h =
    All-append AscendingPair (pairs_with artifact a rest) (pairs_of artifact rest)
      (pairs_with-Ascending artifact a rest h.0) (pairs_of-Ascending artifact rest h.1)

artifact_pairs-Ascending :
    (artifact : String) (group : List Membership)
    → All AscendingPair (artifact_pairs artifact group)
unfolding artifact_pairs
artifact_pairs-Ascending artifact group =
    pairs_of-Ascending artifact _ (sort_by-Ordered (λ (m : Membership). m.person_id) group)

abbrev AscendingEdge : Edge → Type 0
AscendingEdge e = Ascending e.0

add_edge-Ascending :
    (pair : String × String) (shared : SharedArtifact) (edges : List Edge)
    → Ascending pair
    → All AscendingEdge edges
    → All AscendingEdge (add_edge pair shared edges)
unfolding add_edge
add_edge-Ascending pair shared [] h k = (h, tt)
add_edge-Ascending pair shared ((key, artifacts) ∷ edges) h k =
    elim (Bool-cases (edge_eq key pair)) [
      | inl e ↦ rw e (k.0, k.1)
      | inr e ↦ rw e (k.0, add_edge-Ascending pair shared edges h k.1)
    ]

add_edges-Ascending :
    (pairs : List ((String × String) × SharedArtifact)) (edges : List Edge)
    → All AscendingPair pairs
    → All AscendingEdge edges
    → All AscendingEdge (add_edges pairs edges)
unfolding add_edges
add_edges-Ascending [] edges h k = k
add_edges-Ascending ((pair, shared) ∷ rest) edges h k =
    add_edges-Ascending rest (add_edge pair shared edges) h.1
      (add_edge-Ascending pair shared edges h.0 k)

groups_edges-Ascending :
    (groups : List (String × List Membership)) (edges : List Edge)
    → All AscendingEdge edges
    → All AscendingEdge (groups_edges groups edges)
unfolding groups_edges
groups_edges-Ascending [] edges k = k
groups_edges-Ascending ((artifact, group) ∷ groups) edges k =
    groups_edges-Ascending groups (add_edges (artifact_pairs artifact group) edges) (
      add_edges-Ascending (artifact_pairs artifact group) edges
        (artifact_pairs-Ascending artifact group) k)

-- The persons of a row are in order.
abbrev pub IsAscending : Connection → Type 0
IsAscending c = str_lt c.person_a_id c.person_b_id ≡ true

module _ (cal : Calendar) where
  rows-IsAscending :
      (kind : String) (now : ℕ) (edges : List Edge)
      → All AscendingEdge edges
      → All IsAscending (map (edge_row cal kind now) edges)
  unfolding edge_row
  rows-IsAscending kind now [] h = tt
  rows-IsAscending kind now (e ∷ edges) h = (h.0, rows-IsAscending kind now edges h.1)

  edge_rows-IsAscending :
      (kind : String) (now : ℕ) (members : List Membership)
      → All IsAscending (edge_rows cal kind now (pair_edges members))
  unfolding edge_rows pair_edges
  edge_rows-IsAscending kind now members =
      rows-IsAscending kind now (sort_by edge_lt (pair_edges members)) (
        All-sort_by edge_lt AscendingEdge (pair_edges members) (
          groups_edges-Ascending
            (sort_by (by (λ (g : String × List Membership). g.0)) (by_artifact members [])) [] tt))

  -- A list of the rows of the three types.
  abbrev all_edges : ℕ → List Membership → List Membership → List Membership → List Connection
  all_edges now coauthors contributors officerships =
      edge_rows cal "coauthor" now (pair_edges coauthors)
      ++ (edge_rows cal "co_contributor" now (pair_edges contributors)
          ++ edge_rows cal "co_officer" now (pair_edges (map closed officerships)))

  all_edges-IsAscending :
      (now : ℕ) (xs ys zs : List Membership) → All IsAscending (all_edges now xs ys zs)
  all_edges-IsAscending now xs ys zs =
      All-append IsAscending _ _ (edge_rows-IsAscending "coauthor" now xs) (
        All-append IsAscending _ _ (edge_rows-IsAscending "co_contributor" now ys)
          (edge_rows-IsAscending "co_officer" now (map closed zs)))

  row_count-all_edges :
      (a b kind : String) (now : ℕ) (xs ys zs : List Membership)
      → row_count a b kind (all_edges now xs ys zs) ≤ 1
  row_count-all_edges a b kind now xs ys zs =
      let first = edge_rows cal "coauthor" now (pair_edges xs) in
      let second = edge_rows cal "co_contributor" now (pair_edges ys) in
      let third = edge_rows cal "co_officer" now (pair_edges (map closed zs)) in
      omega (
        arith,
        row_count-append a b kind first (second ++ third),
        row_count-append a b kind second third,
        row_count-edge_rows cal a b kind "coauthor" now xs,
        row_count-edge_rows cal a b kind "co_contributor" now ys,
        row_count-edge_rows cal a b kind "co_officer" now (map closed zs),
        one_type cal kind,
      )

  -- If build_connections returns, every row joins two persons with the smaller id as person_a_id,
  -- and two persons have at most one row of a type.
  pub build_connections-IsAscending :
      (authorships contributions officers publications : List Row) (links : Dict String) (now : ℕ)
      {rows : List Connection}
      → build_connections cal authorships contributions officers publications links now ≡ ok rows
      → All IsAscending rows × ((a b kind : String) → row_count a b kind rows ≤ 1)
  unfolding build_connections
  build_connections-IsAscending authorships contributions officers publications links now h =
      let (published, _, h1) = >>=-eq-ok (published_dates cal publications []) _ h in
      let (coauthors, _, h2) =
        >>=-eq-ok (memberships cal authorships links "publication_id" none none published) _ h1 in
      let (contributors, _, h3) =
        >>=-eq-ok
          (memberships cal contributions links "project_id" (some "first_commit_at")
            (some "last_commit_at") [])
          _ h2 in
      let (officerships, _, h4) =
        >>=-eq-ok
          (memberships cal officers links "company_id" (some "registered_at")
            (some "deregistered_at") [])
          _ h3 in
      subst (λ rs. All IsAscending rs × ((a b kind : String) → row_count a b kind rs ≤ 1))
        (ok-injective h4)
        (
          all_edges-IsAscending now coauthors contributors officerships,
          λ a b kind. row_count-all_edges a b kind now coauthors contributors officerships,
        )
