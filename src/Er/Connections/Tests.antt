-- ===== src/Er/Connections/Tests.antt =====
-- The collaboration graph of two authors of one paper.
use hacknation_hackathon.Base.{◌≤◌, String, refl, some, List, [], ◌∷◌, All}
use hacknation_hackathon.Base.Dict.{Dict, get, insert}
use hacknation_hackathon.Base.Sort.{sorted}
use hacknation_hackathon.Json.{str, Row}
use hacknation_hackathon.Er.Connections.{
  Calendar, Connection, build_connections, shared_window, decay, date_of,
}
use hacknation_hackathon.Er.Connections.Once.{row_count}
use hacknation_hackathon.Er.Connections.Edges.{IsAscending, build_connections-IsAscending}

abbrev calendar : Calendar
calendar = record {
  parse_date = λ text. some 20000;
  date_of_time = λ t. 20010;
  halved = λ days. record { bits = 0 };
  add = λ x y. y;
  round4 = λ x. x;
}

abbrev authorship : String → Row
authorship psr = ("publication_id", str "paper") ∷ ("source_record_id", str psr) ∷ []

abbrev publications : List Row
publications = (("publication_id", str "paper") ∷ ("published_at", str "2024-10-04") ∷ []) ∷ []

abbrev links : Dict String
links = ("a1", "person-2") ∷ ("b1", "person-1") ∷ []

abbrev edge : Connection
edge = record {
  person_a_id = "person-1";
  person_b_id = "person-2";
  connection_type = "coauthor";
  weight = record { bits = 0x3FF0000000000000 };
  evidence = "paper" ∷ [];
  first_seen = 20000;
  last_seen = 20000;
  updated_at = 7;
}

build_connections-IsAscending_example :
    All IsAscending (edge ∷ []) × ((a b kind : String) → row_count a b kind (edge ∷ []) ≤ 1)
unfolding build_connections get insert sorted shared_window decay date_of
build_connections-IsAscending_example =
    build_connections-IsAscending calendar (authorship "a1" ∷ authorship "b1" ∷ []) [] []
      publications links 7 {rows = edge ∷ []} refl
