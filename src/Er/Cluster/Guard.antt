-- ===== src/Er/Cluster/Guard.antt =====
-- What `guard_same_source` does to a cluster.
use hacknation_hackathon.Base.{
  ◌+◌, ◌≤◌, String, ◌≡◌, refl, ap, ◌∙◌, sym, true, false, inl, inr, List, [], ◌∷◌, ◌++◌, map, arith,
  eq_iff, contains, count, count-append, count_of_not_contains, concat, All, All-append, Bool-cases,
}
use hacknation_hackathon.Base.Dict.{
  Dict, insert, keys, values, insert_new, keys-append, values-append,
}
use hacknation_hackathon.Base.Sort.{sorted, count-sorted}
use hacknation_hackathon.Er.Cluster.{
  ClusterResult, source_of, guard_member, guard_members, guard_same_source,
}

pub contains-map :
    (f : String → String) (m : String) (ks : List String)
    → contains (f m) (map f ks) ≡ false
    → contains m ks ≡ false
contains-map f m [] h = refl
contains-map f m (k ∷ ks) h = ground (arith, eq_iff k m, eq_iff (f k) (f m), contains-map f m ks)

contains-append_right :
    (s v : String) (vs : List String) → contains s vs ≡ true → contains s (vs ++ v ∷ []) ≡ true
contains-append_right s v [] h = ground arith
contains-append_right s v (x ∷ vs) h = ground (arith, contains-append_right s v vs)

All-contains-append :
    (f : String → String) (v : String) (vs ds : List String)
    → All (λ d. contains (f d) vs ≡ true) ds
    → All (λ d. contains (f d) (vs ++ v ∷ []) ≡ true) ds
All-contains-append f v vs [] h = tt
All-contains-append f v vs (d ∷ ds) h =
    (contains-append_right (f d) v vs h.0, All-contains-append f v vs ds h.1)

map-append_one :
    (f : String → String) (ks : List String) (k : String)
    → map f (ks ++ k ∷ []) ≡ map f ks ++ f k ∷ []
map-append_one f [] k = refl
map-append_one f (x ∷ ks) k = λ i. f x ∷ map-append_one f ks k i

module _ (sources : Dict String) where
  -- `kept` maps each member to its source, no two to one, and each of `dropped` collides.
  record Inv (kept : Dict String) (dropped : List String) : Type 0 where
    consistent : values kept ≡ map (source_of sources) (keys kept)
    distinct : (s : String) → count s (values kept) ≤ 1
    collide : All (λ d. contains (source_of sources d) (values kept) ≡ true) dropped

  -- What a member that is kept does to `kept`.
  kept_insert :
      (m : String) (kept : Dict String) (dropped : List String)
      → Inv kept dropped
      → contains (source_of sources m) (values kept) ≡ false
      → insert m (source_of sources m) kept ≡ kept ++ (m, source_of sources m) ∷ []
  kept_insert m kept dropped inv h =
      insert_new m (source_of sources m) kept
        (contains-map (source_of sources) m (keys kept) (rw inv.consistent at h))

  Inv-keep :
      (m : String) (kept : Dict String) (dropped : List String)
      → Inv kept dropped
      → contains (source_of sources m) (values kept) ≡ false
      → Inv (kept ++ (m, source_of sources m) ∷ []) dropped
  Inv-keep m kept dropped inv h =
      let s = source_of sources m in
      record {
        consistent =
            values-append kept ((m, s) ∷ [])
            ∙ ap (λ (vs : List String). vs ++ s ∷ []) inv.consistent
            ∙ sym (map-append_one (source_of sources) (keys kept) m)
            ∙ ap (map (source_of sources)) (sym (keys-append kept ((m, s) ∷ [])));
        distinct = λ t. rw values-append (
            ground (
              arith,
              inv.distinct t,
              eq_iff s t,
              count-append t (values kept) (s ∷ []),
              count_of_not_contains s (values kept) h,
            ));
        collide =
            rw values-append
              (All-contains-append (source_of sources) s (values kept) dropped inv.collide);
      }

  -- One member: the invariant holds on, and the member is in `kept` or in `dropped`.
  abbrev Balanced : Dict String × List String → List String → Dict String × List String → Type 0
  Balanced (k, d) ms (k', d') =
      Inv k' d'
      × ((a : String) → count a (keys k') + count a d' ≡ count a (keys k) + count a d + count a ms)

  guard_member-Balanced :
      (m : String) (k : Dict String) (d : List String)
      → Inv k d
      → Balanced (k, d) (m ∷ []) (guard_member sources m (k, d))
  unfolding guard_member
  guard_member-Balanced m k d inv = elim (Bool-cases (contains (source_of sources m) (values k))) [
    | inl e ↦ rw e (
      record {
        consistent = inv.consistent;
        distinct = inv.distinct;
        collide = All-append _ d (m ∷ []) inv.collide (e, tt);
      },
      λ a. omega (arith, count-append a d (m ∷ [])),
    )
    | inr e ↦
        rw (e, kept_insert m k d inv e)
          (
            Inv-keep m k d inv e,
            λ a. rw keys-append (omega (arith, count-append a (keys k) (m ∷ []))),
          )
  ]

  guard_members-Balanced :
      (ms : List String) (k : Dict String) (d : List String)
      → Inv k d
      → Balanced (k, d) ms (guard_members sources ms (k, d))
  unfolding guard_members
  guard_members-Balanced [] k d inv = (inv, λ a. omega arith)
  guard_members-Balanced (m ∷ ms) k d inv =
      let (k', d') = guard_member sources m (k, d) in
      let one : Balanced (k, d) (m ∷ []) (k', d') = guard_member-Balanced m k d inv in
      let rest : Balanced (k', d') ms (guard_members sources ms (k', d')) =
        guard_members-Balanced ms k' d' one.0 in
      (rest.0, λ a. ground (arith, one.1 a, rest.1 a))

abbrev pub ejected_ids : List (String × List String) → List String
ejected_ids [] = []
ejected_ids ((member, cluster) ∷ es) = member ∷ ejected_ids es

ejected_ids-append :
    (k : List String) (ds : List String) (es : List (String × List String))
    → ejected_ids (map (λ member. (member, k)) ds ++ es) ≡ ds ++ ejected_ids es
ejected_ids-append k [] es = refl
ejected_ids-append k (d ∷ ds) es = λ i. d ∷ ejected_ids-append k ds es i

-- At most one member of a cluster is from each source.
abbrev pub OnePerSource : Dict String → List String → Type 0
OnePerSource sources cluster = (s : String) → count s (map (source_of sources) cluster) ≤ 1

-- An ejected member has its source in the cluster that it left.
abbrev pub Collides : Dict String → String × List String → Type 0
Collides sources (member, remaining) =
    contains (source_of sources member) (map (source_of sources) remaining) ≡ true

All-Collides :
    (sources : Dict String) (k : List String) (ds : List String)
    → All (λ d. contains (source_of sources d) (map (source_of sources) k) ≡ true) ds
    → All (Collides sources) (map (λ member. (member, k)) ds)
All-Collides sources k [] h = tt
All-Collides sources k (d ∷ ds) h = (h.0, All-Collides sources k ds h.1)

-- What the guard does to a whole list of clusters.
record Guards (sources : Dict String) (clusters : List (List String)) (r : ClusterResult)
    : Type 0 where
  one_per_source : All (OnePerSource sources) r.clusters
  balance :
      (a : String)
      → count a (concat r.clusters) + count a (ejected_ids r.ejected) ≡ count a (concat clusters)
  collisions : All (Collides sources) r.ejected

guard_same_source-Guards :
    (sources : Dict String) (clusters : List (List String))
    → Guards sources clusters (guard_same_source sources clusters)
unfolding guard_same_source
guard_same_source-Guards sources [] = record {
  one_per_source = tt;
  balance = λ a. refl;
  collisions = tt;
}
guard_same_source-Guards sources (c ∷ cs) =
    let (k, d) = guard_members sources (sorted c) ([], []) in
    let rest = guard_same_source sources cs in
    let ih : Guards sources cs rest = guard_same_source-Guards sources cs in
    let start : Inv sources [] [] = record {
      consistent = refl;
      distinct = λ s. omega arith;
      collide = tt;
    } in
    let one : Balanced sources ([], []) (sorted c) (k, d) =
      guard_members-Balanced sources (sorted c) [] [] start in
    record {
      one_per_source = ((λ s. rw one.0.consistent at (one.0.distinct s)), ih.one_per_source);
      balance = λ a. rw (ejected_ids-append (keys k) d rest.ejected) (
          omega (
            arith,
            one.1 a,
            ih.balance a,
            count-sorted a c,
            count-append a (keys k) (concat rest.clusters),
            count-append a d (ejected_ids rest.ejected),
            count-append a c (concat cs),
          ));
      collisions =
          All-append (Collides sources) (map (λ member. (member, keys k)) d) rest.ejected
            (All-Collides sources (keys k) d (rw one.0.consistent at one.0.collide)) ih.collisions;
    }

module _ (sources : Dict String) (clusters : List (List String)) where
  -- After the guard no cluster holds two records of one source.
  pub guard_same_source-OnePerSource :
      All (OnePerSource sources) (guard_same_source sources clusters).clusters
  guard_same_source-OnePerSource = (guard_same_source-Guards sources clusters).one_per_source

  -- The guard loses and invents no record: each occurs in the guarded clusters and among the
  -- ejected ones together as often as in the clusters that went in.
  pub guard_same_source_keeps_members :
      (a : String)
      → let r = guard_same_source sources clusters in
        count a (concat r.clusters) + count a (ejected_ids r.ejected) ≡ count a (concat clusters)
  guard_same_source_keeps_members = (guard_same_source-Guards sources clusters).balance

  -- Only collisions are ejected: the cluster that is left holds a record of the source of the
  -- ejected one.
  pub guard_same_source-Collides :
      All (Collides sources) (guard_same_source sources clusters).ejected
  guard_same_source-Collides = (guard_same_source-Guards sources clusters).collisions
