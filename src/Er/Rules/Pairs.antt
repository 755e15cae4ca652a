-- ===== src/Er/Rules/Pairs.antt =====
-- er/rules.py: why the rules D1 to D4, D6 and D7 match two records.
use hacknation_hackathon.Base.{
  some-injective, String, ◌≡◌, refl, ◌⊎◌, inl, inr, Bool, true, false, Option, none, some, List, [],
  ◌∷◌, arith, ◌==◌, eq_iff, eq_refl, contains, select, head?, All, All-imp, All-select, All-append,
  Bool-cases, Option-cases, subst,
}
use mathlib.Core.List.{Memᴰ}
use hacknation_hackathon.Base.Sort.{sort_by, sorted, All-sort_by, str_lt}
use hacknation_hackathon.Er.Models.{
  PsrView, RuleMatch, Method, det_orcid, det_email, det_website, det_handle, det_linkedin,
  det_name_org,
}
use hacknation_hackathon.Er.Crosslinks.{ordered}
use hacknation_hackathon.Er.Rules.{
  Scoring, agree, listed, shared_email, d1, d2, d3, d4, d6, d7, github_url_on_record, linkedin_norm,
  identifier_matches, pair_matches, against, all_pairs,
}

-- Both have the value, and the same one.
abbrev pub Shared : Option String → Option String → Type 0
Shared a b = (x : String) × (a ≡ some x) × (b ≡ some x)

agree-Shared : (a b : Option String) {x : String} → agree a b ≡ some x → Shared a b
agree-Shared none b h = cc
agree-Shared (some a) none h = cc
agree-Shared (some a) (some b) h = elim (Bool-cases (a == b)) [
  | inl e ↦ (a, refl, ground (arith, eq_iff a b, e))
  | inr e ↦ absurd (let h' = rw e at h in cc)
]

pub All-listed :
    (P : RuleMatch → Type 0) (m : Option RuleMatch)
    → ((x : RuleMatch) → m ≡ some x → P x)
    → All P (listed m)
All-listed P none h = tt
All-listed P (some m) h = (h m refl, tt)

All-head? :
    (P : String → Type 0) (xs : List String) {x : String} → All P xs → head? xs ≡ some x → P x
All-head? P [] h e = cc
All-head? P (y ∷ xs) h e = subst P (let k : ◌≡◌ {A = Option String} (some y) (some _) = e in cc) h.0

-- Each element is in the list.
All-contains : (xs : List String) → All (λ x. contains x xs ≡ true) xs
All-contains [] = tt
All-contains (x ∷ xs) =
    (ground (arith, eq_refl x), All-imp (λ y h. ground (arith, h)) xs (All-contains xs))

-- The smallest of the common addresses is an address of both.
shared_email-contains :
    (a b : PsrView) {e : String}
    → shared_email a b ≡ some e
    → (contains e a.email_norms ≡ true) × (contains e b.email_norms ≡ true)
unfolding sorted
shared_email-contains a b h =
    let P : String → Type 0 =
      λ e. (contains e a.email_norms ≡ true) × (contains e b.email_norms ≡ true) in
    let common = select (λ e. contains e b.email_norms) a.email_norms in
    All-head? P (sort_by str_lt common)
      (All-sort_by str_lt P common (
        All-select P (λ e. contains e b.email_norms) a.email_norms
          (All-imp (λ e k l. (k, l)) a.email_norms (All-contains a.email_norms))))
      h

pub All-Memᴰ {ℓ} : {A : Type ℓ} (xs : List A) → All (λ x. Memᴰ x xs) xs
All-Memᴰ [] = tt
All-Memᴰ (x ∷ xs) = (Memᴰ.head refl, All-imp (λ y h. Memᴰ.tail h) xs (All-Memᴰ xs))

-- The two stand at different places of the list, the first before the second.
abbrev pub Before : List PsrView → PsrView → PsrView → Type 0
Before [] a b = ⊥
Before (x ∷ xs) a b = ((x ≡ a) × Memᴰ b xs) ⊎ Before xs a b

abbrev pub is_identifier : Method → Bool
is_identifier det_name_org = false
is_identifier _ = true

module _ (lib : Scoring) where
  -- What the two records share, by the method of the match.
  abbrev pub Agrees : PsrView → PsrView → Method → Type 0
  Agrees a b det_orcid = Shared a.orcid b.orcid
  Agrees a b det_email =
      (e : String) × (contains e a.email_norms ≡ true) × (contains e b.email_norms ≡ true)
  Agrees a b det_website = Shared a.website_url_norm b.website_url_norm
  Agrees a b det_handle =
      Shared a.twitter_handle b.twitter_handle ⊎ (github_url_on_record lib a b ≡ true)
  Agrees a b det_linkedin =
      Shared (linkedin_norm lib a.linkedin_url) (linkedin_norm lib b.linkedin_url)
  Agrees a b det_name_org = Shared a.name_norm b.name_norm × Shared a.org_norm b.org_norm
  Agrees a b _ = ⊥

  abbrev pub Reason : PsrView → PsrView → RuleMatch → Type 0
  Reason a b m =
      Agrees a b m.method
      × ((m.left, m.right) ≡ ordered a.source_record_id b.source_record_id)
      × (m.auto ≡ is_identifier m.method)

  d1-Reason : (a b : PsrView) (m : RuleMatch) → d1 a b ≡ some m → Reason a b m
  unfolding d1
  d1-Reason a b m h = elim (Option-cases (agree a.orcid b.orcid)) [
    | inl e ↦ absurd (let k = rw (d1, e) at h in cc)
    | inr (x, e) ↦
        subst (Reason a b) (some-injective (rw (d1, e) at h))
          (agree-Shared a.orcid b.orcid e, refl, refl)
  ]

  d2-Reason : (a b : PsrView) (m : RuleMatch) → d2 a b ≡ some m → Reason a b m
  unfolding d2
  d2-Reason a b m h = elim (Option-cases (shared_email a b)) [
    | inl e ↦ absurd (let k = rw (d2, e) at h in cc)
    | inr (x, e) ↦
        subst (Reason a b) (some-injective (rw (d2, e) at h))
          ((x, (shared_email-contains a b e).0, (shared_email-contains a b e).1), refl, refl)
  ]

  d3-Reason : (a b : PsrView) (m : RuleMatch) → d3 a b ≡ some m → Reason a b m
  unfolding d3
  d3-Reason a b m h = elim (Option-cases (agree a.website_url_norm b.website_url_norm)) [
    | inl e ↦ absurd (let k = rw (d3, e) at h in cc)
    | inr (x, e) ↦
        subst (Reason a b) (some-injective (rw (d3, e) at h))
          (agree-Shared a.website_url_norm b.website_url_norm e, refl, refl)
  ]

  d7-Reason : (a b : PsrView) (m : RuleMatch) → d7 lib a b ≡ some m → Reason a b m
  unfolding d7
  d7-Reason a b m h =
      elim (Option-cases
        (agree (linkedin_norm lib a.linkedin_url) (linkedin_norm lib b.linkedin_url))) [
          | inl e ↦ absurd (let k = rw (d7, e) at h in cc)
          | inr (x, e) ↦ subst (Reason a b) (some-injective (rw (d7, e) at h)) (
            agree-Shared (linkedin_norm lib a.linkedin_url) (linkedin_norm lib b.linkedin_url) e,
            refl,
            refl,
          )
        ]

  d4-Reason : (a b : PsrView) (m : RuleMatch) → d4 lib a b ≡ some m → Reason a b m
  unfolding d4
  d4-Reason a b m h = elim (Option-cases (agree a.twitter_handle b.twitter_handle)) [
    | inr (x, e) ↦
        subst (Reason a b) (some-injective (rw (d4, e) at h))
          (inl (agree-Shared a.twitter_handle b.twitter_handle e), refl, refl)
    | inl e ↦ elim (Bool-cases (github_url_on_record lib a b)) [
      | inl g ↦ subst (Reason a b) (some-injective (rw (d4, e, g) at h)) (inr g, refl, refl)
      | inr g ↦ absurd (let k = rw (d4, e, g) at h in cc)
    ]
  ]

  d6-Reason : (a b : PsrView) (m : RuleMatch) → d6 a b ≡ some m → Reason a b m
  unfolding d6
  d6-Reason a b m h = elim (Option-cases (agree a.name_norm b.name_norm)) [
    | inl e ↦ absurd (let k = rw (d6, e) at h in cc)
    | inr (x, e) ↦ elim (Option-cases (agree a.org_norm b.org_norm)) [
      | inl g ↦ absurd (let k = rw (d6, e, g) at h in cc)
      | inr (y, g) ↦ subst (Reason a b) (some-injective (rw (d6, e, g) at h)) (
        (agree-Shared a.name_norm b.name_norm e, agree-Shared a.org_norm b.org_norm g),
        refl,
        refl,
      )
    ]
  ]

  -- Two records are matched only for a reason that both show, and only D6, which needs a name and an
  -- organisation, gives a match that is not automatic.
  pub pair_matches-Reason : (a b : PsrView) → All (Reason a b) (pair_matches lib a b)
  unfolding pair_matches identifier_matches
  pair_matches-Reason a b =
      let P = Reason a b in
      let last = All-listed P (d7 lib a b) (d7-Reason a b) in
      let four = All-append P _ _ (All-listed P (d4 lib a b) (d4-Reason a b)) last in
      let three = All-append P _ _ (All-listed P (d3 a b) (d3-Reason a b)) four in
      let two = All-append P _ _ (All-listed P (d2 a b) (d2-Reason a b)) three in
      let one = All-append P _ _ (All-listed P (d1 a b) (d1-Reason a b)) two in
      All-append P _ _ one (All-listed P (d6 a b) (d6-Reason a b))

  -- A match on two of the records, `Ordered` one after the other, and why.
  abbrev pub Paired : (PsrView → Type 0) → (PsrView → PsrView → Type 0) → RuleMatch → Type 0
  Paired In Ordered m = (a : PsrView) × (b : PsrView) × In a × In b × Ordered a b × Reason a b m

  against-Paired :
      (In : PsrView → Type 0) (Ordered : PsrView → PsrView → Type 0) (a : PsrView)
      (bs : List PsrView)
      → In a
      → All In bs
      → All (Ordered a) bs
      → All (Paired In Ordered) (against lib a bs)
  unfolding against
  against-Paired In Ordered a [] ha h k = tt
  against-Paired In Ordered a (b ∷ bs) ha h k =
      All-append (Paired In Ordered) (pair_matches lib a b) (against lib a bs)
        (All-imp (λ m r. (a, b, ha, h.0, k.0, r)) (pair_matches lib a b) (pair_matches-Reason a b))
        (against-Paired In Ordered a bs ha h.1 k.1)

  pub all_pairs-Paired :
      (In : PsrView → Type 0) (views : List PsrView)
      → All In views
      → All (Paired In (Before views)) (all_pairs lib views)
  unfolding all_pairs
  all_pairs-Paired In [] h = tt
  all_pairs-Paired In (a ∷ views) h =
      All-append (Paired In (Before (a ∷ views))) (against lib a views) (all_pairs lib views)
        (against-Paired In (Before (a ∷ views)) a views h.0 h.1
          (All-imp (λ b m. inl (refl, m)) views (All-Memᴰ views)))
        (All-imp (λ m (a', b', ha, hb, order, r). (a', b', ha, hb, inr order, r))
          (all_pairs lib views) (all_pairs-Paired In views h.1))
