-- ===== src/Er/Allocator.antt =====
-- er/allocator.py: the choice of a person id for a cluster. An allocator has a state, since the live
-- one mints random ids; a cluster is the list of its members.
use hacknation_hackathon.Base.{
  String, Option, none, some, List, [], ◌∷◌, Bool, true, false, ◌==◌, if◌then◌else◌,
}
use hacknation_hackathon.Base.Dict.{Dict, get, insert, IsDict, insert-IsDict}
use hacknation_hackathon.Base.Sort.{sorted}
use hacknation_hackathon.Json.{Row, get_str}

abbrev pub Allocator : Type 0 → Type 0
Allocator S = List String → S → String × S

-- `RandomPersonIdAllocator`: the next of the ids that `uuid4` will give.
unfoldable pub random_allocator : {S : Type 0} → (S → String × S) → Allocator S
random_allocator new_random_id cluster s = new_random_id s

-- The value of the first key that is known.
unfoldable pub first_known : Dict String → List String → Option String
first_known mapping [] = none
first_known mapping (member ∷ rest) = elim (get mapping member) [
  | some known ↦ some known
  | none ↦ first_known mapping rest
]

allocate_seeded : {S : Type 0} → Option String → Allocator S → Allocator S
allocate_seeded (some known) fallback cluster s = (known, s)
allocate_seeded none fallback cluster s = fallback cluster s

-- `SeededPersonIdAllocator`
unfoldable pub seeded_allocator : {S : Type 0} → Dict String → Allocator S → Allocator S
unfolding allocate_seeded first_known
seeded_allocator mapping fallback cluster s =
    allocate_seeded (first_known mapping (sorted cluster)) fallback cluster s

abbrev pub status_is_active : Row → Bool
status_is_active row = elim (get_str row "status") [ some s ↦ s == "active" | none ↦ false ]

unfoldable pub add_link : Row → Option String → Option String → Dict String → Dict String
add_link row (some person) (some psr) mapping =
    if status_is_active row then insert psr person mapping else mapping
add_link row none psr mapping = mapping
add_link row (some person) none mapping = mapping

-- The active links, as source_record_id to person_id: the loop of `allocator_from_links`, which
-- `_active_links` of er/pipeline.py repeats.
unfoldable pub active_links_from : Dict String → List Row → Dict String
unfolding add_link
active_links_from mapping [] = mapping
active_links_from mapping (row ∷ rows) =
    active_links_from
      (add_link row (get_str row "person_id") (get_str row "source_record_id") mapping) rows

unfoldable pub allocator_from_links : {S : Type 0} → List Row → Allocator S → Allocator S
unfolding active_links_from seeded_allocator
allocator_from_links link_rows fallback = seeded_allocator (active_links_from [] link_rows) fallback

add_link-IsDict :
    (row : Row) (person psr : Option String) (d : Dict String)
    → IsDict d
    → IsDict (add_link row person psr d)
unfolding add_link
add_link-IsDict row none psr d h = h
add_link-IsDict row (some person) none d h = h
add_link-IsDict row (some person) (some psr) d h =
    elim (status_is_active row) as (λ b. IsDict (if b then insert psr person d else d)) [
      | true ↦ insert-IsDict psr person d h
      | false ↦ h
    ]

-- The links that the loop adds to a dict form a dict: each record once.
pub active_links_from-IsDict :
    (d : Dict String) (rows : List Row) → IsDict d → IsDict (active_links_from d rows)
unfolding active_links_from
active_links_from-IsDict d [] h = h
active_links_from-IsDict d (row ∷ rows) h =
    let person = get_str row "person_id" in
    let psr = get_str row "source_record_id" in
    active_links_from-IsDict (add_link row person psr d) rows (add_link-IsDict row person psr d h)
