-- ===== src/Er/Adjudicate/Settled.antt =====
-- er/adjudicate.py: what a run of adjudicate_pairs settles, and that a second run asks nothing again.
use hacknation_hackathon.Base.{
  String, Bool, true, not, ◌&&◌, ◌||◌, Option, none, some, List, [], ◌∷◌, ◌++◌, map, ◌≡◌, refl, sym,
  ◌∙◌, ap, subst, inl, inr, arith, eq_iff, All, select, contains, is_some, Bool-cases, Option-cases,
  Result, ok, or_raise, >>=-eq-ok, ok-injective,
}
use hacknation_hackathon.Base.Dict.{Dict, get}
use hacknation_hackathon.Base.Float.{Float}
use hacknation_hackathon.Json.{Row, get_str}
use hacknation_hackathon.Er.Models.{PsrView, ScoredPair}
use hacknation_hackathon.Er.Adjudicate.{
  Services, Adjudication, AdjudicationError, Evidence, verdicts, validated, known_verdict,
  adjudication, pair_id, both_views, to_ask, settle, adjudicate_pairs, settled_pair_ids, parsed_of,
  verdict_schema, bad_rationale, bad_fields, string_list, client_ok, build_prompt,
}

module _ {E : Type 0} where
  known_verdict-contains :
      (pair : String) (v : Option String) {w : String}
      → ◌≡◌ {A = Result (AdjudicationError E) String} (known_verdict pair v) (ok w)
      → contains w verdicts ≡ true
  unfolding known_verdict
  known_verdict-contains pair none h = cc
  known_verdict-contains pair (some v) h = elim (Bool-cases (contains v verdicts)) [
    | inl e ↦ subst (λ w. contains w verdicts ≡ true) (ok-injective (rw e at h)) e
    | inr e ↦ absurd (let h' = rw e at h in cc)
  ]

  validated-verdict :
      (pair : String) (parsed : Option Row) {e : Evidence}
      → ◌≡◌ {A = Result (AdjudicationError E) Evidence} (validated pair parsed) (ok e)
      → contains e.verdict verdicts ≡ true
  unfolding validated
  validated-verdict pair none h = cc
  validated-verdict pair (some payload) h =
      let (v, hv, h1) = >>=-eq-ok (known_verdict pair (get_str payload "verdict")) _ h in
      let (r, _, h2) =
        >>=-eq-ok (or_raise (get_str payload "rationale") (verdict_schema pair bad_rationale)) _
          h1 in
      let (f, _, h3) =
        >>=-eq-ok
          (or_raise (string_list (get payload "fields_supporting"))
            (verdict_schema pair bad_fields))
          _ h2 in
      subst (λ (e : Evidence). contains e.verdict verdicts ≡ true) (ok-injective h3)
        (known_verdict-contains pair (get_str payload "verdict") hv)

-- What an adjudication says which pair it is of.
abbrev pub Key : Type 0
Key = String × String × Float

module _ {E S : Type 0} (services : Services E S) where
  abbrev pub key_of : ScoredPair → Key
  key_of pair = (pair.left, pair.right, pair.probability)

  abbrev pub adjudicated : Adjudication → Key
  adjudicated a = (a.left, a.right, a.probability)

  -- The verdict is one of the three, and the row is under the id of the pair.
  abbrev pub IsSettled : Adjudication → Type 0
  IsSettled a =
      (contains a.verdict verdicts ≡ true)
      × (a.pair_id ≡ pair_id services a.left a.right)
      × (settled_pair_ids services (a.row ∷ []) ≡ a.pair_id ∷ [])

  module _ (views : Dict PsrView) (existing : List String) (version : String) where
    settle_lem :
        (pair : ScoredPair) (a b : PsrView) (s : S) {one : Adjudication × S}
        → settle services views existing version pair a b s ≡ ok one
        → (adjudicated one.0 ≡ key_of pair) × IsSettled one.0
    unfolding settle adjudication settled_pair_ids get
    settle_lem pair a b s h =
        let settled = pair_id services pair.left pair.right in
        let (response, _, h1) =
          >>=-eq-ok (client_ok services (services.complete (build_prompt services settled a b) s).0)
            _ h in
        let (e, he, h2) = >>=-eq-ok (validated settled (parsed_of services response)) _ h1 in
        subst (λ (one : Adjudication × S). (adjudicated one.0 ≡ key_of pair) × IsSettled one.0)
          (ok-injective h2)
          (refl, (validated-verdict settled (parsed_of services response) he, refl, refl))

    -- The pairs whose id is not among the settled ones and whose records are known.
    abbrev pub is_open : ScoredPair → Bool
    is_open p =
        not (contains (pair_id services p.left p.right) existing)
        && (is_some (get views p.left) && is_some (get views p.right))

    abbrev pub open_pairs : List ScoredPair → List ScoredPair
    open_pairs = select is_open

    is_some-both_views :
        (a b : Option PsrView)
        → is_some (both_views services views existing version a b) ≡ (is_some a && is_some b)
    unfolding both_views
    is_some-both_views none b = refl
    is_some-both_views (some a) none = refl
    is_some-both_views (some a) (some b) = refl

    is_open-to_ask :
        (p : ScoredPair) → is_open p ≡ is_some (to_ask services views existing version p)
    unfolding to_ask
    is_open-to_ask p = elim (Bool-cases (contains (pair_id services p.left p.right) existing)) [
      | inl e ↦ rw e refl
      | inr e ↦ rw e (sym (is_some-both_views (get views p.left) (get views p.right)))
    ]

    -- An adjudication run that returns has one adjudication, in order, for each pair whose id is
    -- not among the settled ones and whose two records are known; each has one of the three
    -- verdicts, the id of its pair, and a row under that id.
    pub adjudicate_pairs_lem :
        (pairs : List ScoredPair) (s : S) {out : List Adjudication} {s' : S}
        → adjudicate_pairs services views existing version pairs s ≡ ok (out, s')
        → (map adjudicated out ≡ map key_of (open_pairs pairs)) × All IsSettled out
    unfolding adjudicate_pairs
    adjudicate_pairs_lem [] s h =
        subst (λ (r : List Adjudication × S). (map adjudicated r.0 ≡ []) × All IsSettled r.0)
          (ok-injective h) (refl, tt)
    adjudicate_pairs_lem (pair ∷ pairs) s h =
        elim (Option-cases (to_ask services views existing version pair)) [
          | inl e ↦
              rw (is_open-to_ask pair, e)
                (adjudicate_pairs_lem pairs s (rw (adjudicate_pairs, e) at h))
          | inr (asked, e) ↦
              let (one, h1, k1) =
                >>=-eq-ok (settle services views existing version pair asked.0 asked.1 s) _
                  (rw (adjudicate_pairs, e) at h) in
              let (rest, h2, k2) =
                >>=-eq-ok (adjudicate_pairs services views existing version pairs one.1) _ k1 in
              let first = settle_lem pair asked.0 asked.1 s h1 in
              let later = adjudicate_pairs_lem pairs one.1 h2 in
              rw (is_open-to_ask pair, e)
                (subst
                  (λ (r : List Adjudication × S).
                    (map adjudicated r.0 ≡ key_of pair ∷ map key_of (open_pairs pairs))
                    × All IsSettled r.0)
                  (ok-injective k2) ((λ i. first.0 i ∷ later.0 i), (first.1, later.1)))
        ]

contains-append :
    (a : String) (xs ys : List String) → contains a (xs ++ ys) ≡ (contains a xs || contains a ys)
contains-append a [] ys = refl
contains-append a (x ∷ xs) ys = ground (arith, contains-append a xs ys)

module _ {E S : Type 0} (services : Services E S) where
  settled_pair_ids-append :
      (xs ys : List Row)
      → settled_pair_ids services (xs ++ ys)
        ≡ settled_pair_ids services xs ++ settled_pair_ids services ys
  unfolding settled_pair_ids
  settled_pair_ids-append [] ys = refl
  settled_pair_ids-append (x ∷ xs) ys = elim (Option-cases (get_str x "pair_id")) [
    | inl e ↦
        rw (e, settled_pair_ids)
          (ap (λ rest. services.show_value (get x "pair_id") ∷ rest)
            (settled_pair_ids-append xs ys))
    | inr (s, e) ↦ rw (e, settled_pair_ids) (ap (λ rest. s ∷ rest) (settled_pair_ids-append xs ys))
  ]

  module _ (views : Dict PsrView) (version : String) where
    abbrev Within : List String → List String → Type 0
    Within ids more = (a : String) → contains a ids ≡ true → contains a more ≡ true

    -- A pair that need not be asked need not be asked when more is settled.
    to_ask_more :
        (ids more : List String) (pair : ScoredPair)
        → Within ids more
        → to_ask services views ids version pair ≡ none
        → to_ask services views more version pair ≡ none
    unfolding to_ask
    to_ask_more ids more pair within h =
        ground (arith, within (pair_id services pair.left pair.right))

    to_ask-settled :
        (ids : List String) (pair : ScoredPair)
        → contains (pair_id services pair.left pair.right) ids ≡ true
        → to_ask services views ids version pair ≡ none
    unfolding to_ask
    to_ask-settled ids pair h = rw h refl

    abbrev ids_of : List Adjudication → List String
    ids_of out = settled_pair_ids services (map (λ a. a.row) out)

    ids_of_cons :
        (one : Adjudication) (out : List Adjudication)
        → IsSettled services one
        → ids_of (one ∷ out) ≡ one.pair_id ∷ ids_of out
    ids_of_cons one out h =
        settled_pair_ids-append (one.row ∷ []) (map (λ a. a.row) out)
        ∙ ap (λ ids. ids ++ ids_of out) h.2

    id_of_pair :
        (pair : ScoredPair) (one : Adjudication)
        → (adjudicated services one ≡ key_of services pair) × IsSettled services one
        → one.pair_id ≡ pair_id services pair.left pair.right
    id_of_pair pair one (e, h) = h.1 ∙ ap (λ (k : Key). pair_id services k.0 k.1) e

    -- After a run, no pair of it is left to ask.
    asked :
        (existing more : List String) (pairs : List ScoredPair) (s : S) {r : List Adjudication × S}
        → adjudicate_pairs services views existing version pairs s ≡ ok r
        → Within existing more
        → Within (ids_of r.0) more
        → All (λ p. to_ask services views more version p ≡ none) pairs
    unfolding adjudicate_pairs
    asked existing more [] s h old new = tt
    asked existing more (pair ∷ pairs) s h old new =
        elim (Option-cases (to_ask services views existing version pair)) [
          | inl e ↦ (
            to_ask_more existing more pair old e,
            asked existing more pairs s (rw (adjudicate_pairs, e) at h) old new,
          )
          | inr (both, e) ↦
              let (one, h1, k1) =
                >>=-eq-ok (settle services views existing version pair both.0 both.1 s) _
                  (rw (adjudicate_pairs, e) at h) in
              let (rest, h2, k2) =
                >>=-eq-ok (adjudicate_pairs services views existing version pairs one.1) _ k1 in
              let first = settle_lem services views existing version pair both.0 both.1 s h1 in
              let ids =
                ap (λ (o : List Adjudication × S). ids_of o.0) (sym (ok-injective k2))
                ∙ ids_of_cons one.0 rest.0 first.1 in
              let new' : Within (one.0.pair_id ∷ ids_of rest.0) more =
                subst (λ l. Within l more) ids new in
              (
                to_ask-settled more pair (
                    new' (pair_id services pair.left pair.right) (
                      ground (
                        arith,
                        eq_iff one.0.pair_id (pair_id services pair.left pair.right),
                        id_of_pair pair one.0 first,
                      ))),
                asked existing more pairs one.1 h2 old (λ a k. new' a (ground (arith, k))),
              )
        ]

    none_asked :
        (ids : List String) (pairs : List ScoredPair) (t : S)
        → All (λ p. to_ask services views ids version p ≡ none) pairs
        → adjudicate_pairs services views ids version pairs t ≡ ok ([], t)
    unfolding adjudicate_pairs
    none_asked ids [] t h = refl
    none_asked ids (pair ∷ pairs) t h = rw (adjudicate_pairs, h.0) (none_asked ids pairs t h.1)

    -- Once the rows of an adjudication run that returned are stored beside those from before, a
    -- second run over the same pairs asks the model nothing and returns no adjudication.
    pub adjudicate_pairs_once :
        (rows : List Row) (pairs : List ScoredPair) (s t : S) {out : List Adjudication} {s' : S}
        → adjudicate_pairs services views (settled_pair_ids services rows) version pairs s
          ≡ ok (out, s')
        → adjudicate_pairs services views
            (settled_pair_ids services (rows ++ map (λ a. a.row) out))
            version
            pairs
            t
          ≡ ok ([], t)
    adjudicate_pairs_once rows pairs s t {out} h =
        let all = settled_pair_ids services (rows ++ map (λ a. a.row) out) in
        let split : (a : String)
            → contains a all
              ≡ (contains a (settled_pair_ids services rows) || contains a (ids_of out)) =
          λ a.
            ap (contains a) (settled_pair_ids-append rows (map (λ b. b.row) out))
            ∙ contains-append a _ _ in
        none_asked all pairs t (
          asked (settled_pair_ids services rows) all pairs s h (λ a k. ground (arith, split a, k))
            (λ a k. ground (arith, split a, k)))
