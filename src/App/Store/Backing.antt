-- ===== src/App/Store/Backing.antt =====
-- app/store.py under app/interview.py and app/outreach.py: FixtureStore as the store of their
-- environment.
use hacknation_hackathon.Base.{
  String, true, [], ◌∷◌, Option, some, none, ◌≡◌, refl, Result, ok, err, any, ap, subst, Bool-cases,
  inl, inr, ◌==◌, some-injective, ok-injective,
}
use hacknation_hackathon.Base.Dict.{get}
use hacknation_hackathon.Json.{
  Json, Row, null, bool, int, float, datetime, arr, obj, str, as_str, read,
}
use hacknation_hackathon.App.World.{Environment, raised}
use hacknation_hackathon.App.Outreach.{outreach_table}
use hacknation_hackathon.App.Interview.OptOut.{KeepsTexts, ReadsBack}
use hacknation_hackathon.App.Store.{
  Fixtures, Overlay, StoreError, plain, to_json_value, table_rows, upsert,
}
use hacknation_hackathon.App.Store.Overlay.{upsert-reads_back}

module _ (fx : Fixtures) (env : Environment Overlay) where
  -- The tables that the two modules use are of the registry, where a read does not raise.
  abbrev pub backed : Environment Overlay
  backed = record env {
    rows = λ overlay table. table_rows fx table overlay;
    upsert = λ table rows overlay. elim (upsert fx table rows overlay) [
      | ok after ↦ ok after
      | err refused ↦ err (raised "StoreError")
    ];
  }

  get-plain :
      (row : Row) (k t : String) → get row k ≡ some (str t) → get (plain fx row) k ≡ some (str t)
  unfolding get to_json_value
  get-plain [] k t h = cc
  get-plain ((j, v) ∷ row) k t h = elim (Bool-cases (j == k)) [
    | inl e ↦ rw e (ap (λ o. some (to_json_value fx o)) (some-injective (rw e at h)))
    | inr e ↦ rw e (get-plain row k t (rw e at h))
  ]

  as_str-eq : (o : Option Json) (t : String) → read as_str o ≡ some t → o ≡ some (str t)
  as_str-eq (some (str s)) t h = ap (λ x. some (str x)) (some-injective h)
  as_str-eq (some null) t h = cc
  as_str-eq (some (bool b)) t h = cc
  as_str-eq (some (int n)) t h = cc
  as_str-eq (some (float x)) t h = cc
  as_str-eq (some (datetime n)) t h = cc
  as_str-eq (some (arr xs)) t h = cc
  as_str-eq (some (obj fs)) t h = cc
  as_str-eq none t h = cc

  plain-KeepsTexts : (row : Row) → KeepsTexts row (plain fx row)
  plain-KeepsTexts row k t h = ap (read as_str) (get-plain row k t (as_str-eq (get row k) t h))

  pub backed-ReadsBack : ReadsBack backed
  backed-ReadsBack row s s' h p hp = go (upsert fx outreach_table (row ∷ []) s) refl h
    where
      go :
          (r : Result StoreError Overlay)
          → upsert fx outreach_table (row ∷ []) s ≡ r
          → elim r [ ok after ↦ ok after | err refused ↦ err (raised "StoreError") ] ≡ ok s'
          → any p (table_rows fx outreach_table s') ≡ true
      go (ok after) e k =
          subst (λ o. any p (table_rows fx outreach_table o) ≡ true) (ok-injective k)
            (upsert-reads_back fx outreach_table row s e p
              (hp (plain fx row) (plain-KeepsTexts row)))
      go (err refused) e k = cc
