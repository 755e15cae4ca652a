-- ===== src/Er/Connections/Once.antt =====
-- er/connections.py: two persons have at most one edge of a type.
use hacknation_hackathon.Base.{
  ℕ, suc, ◌≤◌, eq_refl, String, ◌≡◌, refl, subst, Bool, true, false, ◌&&◌, ◌||◌, inl, inr, List, [],
  ◌∷◌, ◌++◌, ◌+◌, map, sym, ap, ◌∙◌, ◌==◌, arith, eq_iff, Bool-cases, if◌then◌else◌,
}
use hacknation_hackathon.Base.Order.{by}
use hacknation_hackathon.Base.Sort.{sort_by, insert_by}
use hacknation_hackathon.Er.Connections.{
  SharedArtifact, Membership, Connection, Calendar, Edge, artifact_pairs, by_artifact, add_edge,
  add_edges, groups_edges, pair_edges, edge_eq, edge_lt, edge_row, edge_rows,
}

-- How often a pair of persons has an edge.
edge_count : String × String → List Edge → ℕ
edge_count pair [] = 0
edge_count pair ((key, artifacts) ∷ edges) =
    let rest = edge_count pair edges in if edge_eq key pair then suc rest else rest

edge_eq_iff : (k p : String × String) → edge_eq k p ≡ true → k ≡ p
edge_eq_iff (a, b) (c, d) h =
    let first : a ≡ c = ground (arith, eq_iff a c, h) in
    let second : b ≡ d = ground (arith, eq_iff b d, h) in λ i. (first i, second i)

edge_eq_refl : (k : String × String) → edge_eq k k ≡ true
edge_eq_refl (a, b) = ground (arith, eq_refl a, eq_refl b)

abbrev has_edge : String × String → List Edge → Bool
has_edge pair [] = false
has_edge pair ((key, artifacts) ∷ edges) = edge_eq key pair || has_edge pair edges

no_edge :
    (p : String × String) (edges : List Edge) → has_edge p edges ≡ false → edge_count p edges ≡ 0
unfolding edge_count
no_edge p [] h = refl
no_edge p ((key, artifacts) ∷ edges) h = ground (arith, h, no_edge p edges)

-- An edge that is there gets its artifact; only a new one is added.
count-add_edge :
    (p pair : String × String) (shared : SharedArtifact) (edges : List Edge)
    → edge_count p (add_edge pair shared edges) ≡ (
        if edge_eq pair p
        then (if has_edge pair edges then edge_count p edges else suc (edge_count p edges))
        else edge_count p edges)
unfolding edge_count add_edge
count-add_edge p pair shared [] = ground arith
count-add_edge p pair shared ((key, artifacts) ∷ edges) = elim (Bool-cases (edge_eq key pair)) [
  | inl e ↦
      let same : edge_eq key p ≡ edge_eq pair p = ap (λ x. edge_eq x p) (edge_eq_iff key pair e) in
      rw e (ground (arith, same))
  | inr e ↦ rw e (ground (arith, count-add_edge p pair shared edges))
]

Once : List Edge → Type 0
Once edges = (p : String × String) → edge_count p edges ≤ 1

add_edge-Once :
    (pair : String × String) (shared : SharedArtifact) (edges : List Edge)
    → Once edges
    → Once (add_edge pair shared edges)
unfolding Once
add_edge-Once pair shared edges h p = elim (Bool-cases (edge_eq pair p)) [
  | inr e ↦ ground (arith, count-add_edge p pair shared edges, h p, e)
  | inl e ↦
      let same : pair ≡ p = edge_eq_iff pair p e in
      elim (Bool-cases (has_edge pair edges)) [
        | inl k ↦ ground (arith, count-add_edge p pair shared edges, h p, e, k)
        | inr k ↦
            let none_yet : edge_count p edges ≡ 0 =
              ap (λ x. edge_count x edges) (sym same) ∙ no_edge pair edges k in
            ground (arith, count-add_edge p pair shared edges, none_yet, e, k)
      ]
]

add_edges-Once :
    (pairs : List ((String × String) × SharedArtifact)) (edges : List Edge)
    → Once edges
    → Once (add_edges pairs edges)
unfolding add_edges
add_edges-Once [] edges h = h
add_edges-Once ((pair, shared) ∷ rest) edges h =
    add_edges-Once rest (add_edge pair shared edges) (add_edge-Once pair shared edges h)

groups_edges-Once :
    (groups : List (String × List Membership)) (edges : List Edge)
    → Once edges
    → Once (groups_edges groups edges)
unfolding groups_edges
groups_edges-Once [] edges h = h
groups_edges-Once ((artifact, group) ∷ groups) edges h =
    groups_edges-Once groups (add_edges (artifact_pairs artifact group) edges)
      (add_edges-Once (artifact_pairs artifact group) edges h)

count-insert_edge :
    (p : String × String) (e : Edge) (edges : List Edge)
    → edge_count p (insert_by edge_lt e edges) ≡ edge_count p (e ∷ edges)
unfolding insert_by edge_count
count-insert_edge p e [] = refl
count-insert_edge p e (f ∷ edges) = ground (arith, count-insert_edge p e edges)

count-sort_edges :
    (p : String × String) (edges : List Edge)
    → edge_count p (sort_by edge_lt edges) ≡ edge_count p edges
unfolding sort_by edge_count
count-sort_edges p [] = refl
count-sort_edges p (e ∷ edges) =
    count-insert_edge p e (sort_by edge_lt edges) ∙ ground (arith, count-sort_edges p edges)

-- How often two persons have a row of a type.
abbrev pub row_count : String → String → String → List Connection → ℕ
row_count a b kind [] = 0
row_count a b kind (c ∷ cs) =
    let rest = row_count a b kind cs in
    if c.person_a_id == a && (c.person_b_id == b && c.connection_type == kind)
    then suc rest
    else rest

pub row_count-append :
    (a b kind : String) (xs ys : List Connection)
    → row_count a b kind (xs ++ ys) ≡ row_count a b kind xs + row_count a b kind ys
row_count-append a b kind [] ys = omega arith
row_count-append a b kind (x ∷ xs) ys = ground (arith, row_count-append a b kind xs ys)

module _ (cal : Calendar) where
  row_count-map :
      (a b kind type : String) (now : ℕ) (edges : List Edge)
      → row_count a b kind (map (edge_row cal type now) edges)
        ≡ (if type == kind then edge_count (a, b) edges else 0)
  unfolding edge_row edge_count
  row_count-map a b kind type now [] = ground arith
  row_count-map a b kind type now (((c, d), shared) ∷ edges) =
      ground (arith, row_count-map a b kind type now edges)

  pub row_count-edge_rows :
      (a b kind type : String) (now : ℕ) (members : List Membership)
      → row_count a b kind (edge_rows cal type now (pair_edges members))
        ≤ (if type == kind then 1 else 0)
  unfolding edge_rows pair_edges Once edge_count
  row_count-edge_rows a b kind type now members =
      let groups = sort_by (by (λ (g : String × List Membership). g.0)) (by_artifact members []) in
      ground (
        arith,
        row_count-map a b kind type now (sort_by edge_lt (groups_edges groups [])),
        count-sort_edges (a, b) (groups_edges groups []),
        groups_edges-Once groups [] (λ p. omega arith) (a, b),
      )

  pub one_type :
      (kind : String)
      → (if "coauthor" == kind then 1 else 0)
          + ((if "co_contributor" == kind then 1 else 0) + (if "co_officer" == kind then 1 else 0))
        ≤ 1
  one_type kind = elim (Bool-cases ("coauthor" == kind)) [
    | inl e ↦
        let k : "coauthor" ≡ kind = ground (arith, eq_iff "coauthor" kind, e) in
        subst
          (λ x.
            (if "coauthor" == x then 1 else 0)
              + ((if "co_contributor" == x then 1 else 0) + (if "co_officer" == x then 1 else 0))
            ≤ 1)
          k (omega arith)
    | inr e ↦ elim (Bool-cases ("co_contributor" == kind)) [
      | inl f ↦
          let k : "co_contributor" ≡ kind = ground (arith, eq_iff "co_contributor" kind, f) in
          subst
            (λ x.
              (if "coauthor" == x then 1 else 0)
                + ((if "co_contributor" == x then 1 else 0) + (if "co_officer" == x then 1 else 0))
              ≤ 1)
            k (omega arith)
      | inr f ↦ ground (arith, e, f)
    ]
  ]
