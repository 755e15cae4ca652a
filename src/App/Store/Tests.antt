-- ===== src/App/Store/Tests.antt =====
-- The fixture store run on one row.
use hacknation_hackathon.Base.{String, ◌≡◌, refl, [], ◌∷◌, ok, ◌==◌, if◌then◌else◌}
use hacknation_hackathon.Base.Dict.{get, insert}
use hacknation_hackathon.Json.{Row, str, datetime}
use hacknation_hackathon.App.Store.{
  Key, Fixtures, plain, put, refusal, upsert, to_json_value, row_key,
}
use hacknation_hackathon.App.Store.Overlay.{upsert-eq-same}
use hacknation_hackathon.App.Store.Refines.{IsStore, shown, written, upsert-refines}

abbrev fixtures : Fixtures
fixtures = record {
  load_table = λ table. (("venture_id", str "v1") ∷ ("name", str "Acme") ∷ []) ∷ [];
  is_known = λ table. table == "gold.venture";
  primary_key = λ table. "venture_id" ∷ [];
  isoformat = λ n. "2026-01-01";
  text_of = λ j. "None";
  canonical_json = λ row. "{}";
}

abbrev renamed : Row
renamed = ("venture_id", str "v1") ∷ ("name", str "Acme AG") ∷ ("updated_at", datetime 7) ∷ []

upsert-eq-same_example :
    upsert fixtures "gold.venture"
      (renamed ∷ [])
      (insert "gold.venture" (put ("v1" ∷ []) (plain fixtures renamed) []) [])
    ≡ ok (insert "gold.venture" (put ("v1" ∷ []) (plain fixtures renamed) []) [])
unfolding get insert refusal upsert put to_json_value row_key
upsert-eq-same_example = upsert-eq-same fixtures "gold.venture" renamed [] refl

upsert-refines_example :
    IsStore fixtures (insert "gold.venture" (put ("v1" ∷ []) (plain fixtures renamed) []) [])
    × ((other : String) (k : Key)
        → shown fixtures other
            (insert "gold.venture" (put ("v1" ∷ []) (plain fixtures renamed) []) [])
            k
          ≡ (if "gold.venture" == other
              then written fixtures
                  ("venture_id" ∷ [])
                  (renamed ∷ [])
                  (shown fixtures "gold.venture" [])
                  k
              else shown fixtures other [] k))
unfolding get insert refusal upsert put to_json_value row_key
upsert-refines_example = upsert-refines fixtures "gold.venture" (renamed ∷ []) [] (λ table. tt) refl
