-- ===== src/Er/Crosslinks.antt =====
-- er/rules.py, stage 1: the links between artifacts, and the candidate pairs that they generate for the
-- rules D5 and D8. A set of URLs is the list of its members.
use hacknation_hackathon.Base.{
  String, Bool, ◌&&◌, Option, none, some, List, [], ◌∷◌, ◌++◌, ◌==◌, contains, or_else,
  if◌then◌else◌,
}
use hacknation_hackathon.Base.Dict.{Dict, get, insert, setdefault}
use hacknation_hackathon.Base.Float.{Float, float_le}
use hacknation_hackathon.Base.Int.{ℤ, pos}
use hacknation_hackathon.Base.Sort.{str_lt}
use hacknation_hackathon.Base.Text.{join, or_text}
use hacknation_hackathon.Json.{
  Json, null, str, bool, int, float, obj, Row, as_mapping, get_str, get_list, get_map, read,
}
use hacknation_hackathon.Tools.Norm.{Unicode, url_norm}

abbrev pub Pair : Type 0
Pair = String × String

abbrev pub pair_eq : Pair → Pair → Bool
pair_eq (a, b) (c, d) = a == c && b == d

-- A dict with pairs for keys.
abbrev pub PairDict : Type 0
PairDict = List (Pair × String)

unfoldable pub pair_insert : Pair → String → PairDict → PairDict
pair_insert k v [] = (k, v) ∷ []
pair_insert k v ((j, w) ∷ d) = if pair_eq j k then (j, v) ∷ d else (j, w) ∷ pair_insert k v d

unfoldable pub pair_setdefault : Pair → String → PairDict → PairDict
pair_setdefault k v [] = (k, v) ∷ []
pair_setdefault k v ((j, w) ∷ d) =
    if pair_eq j k then (j, w) ∷ d else (j, w) ∷ pair_setdefault k v d

pub record CrossLinks : Type 0 where
  pub project_publications : PairDict
  pub project_companies : PairDict

-- TOP_CONTRIBUTOR_SHARE, 0.5
abbrev pub top_contributor_share : Float
top_contributor_share = record { bits = 0x3FE0000000000000 }

abbrev pub hacknation_source : String
hacknation_source = "hacknation"

-- `_ordered`
abbrev pub ordered : String → String → Pair
ordered a b = if str_lt a b then (a, b) else (b, a)

-- `for a in left: for b in right: if a != b: pairs.setdefault(_ordered(a, b), text)`
cross_one : String → List String → String → PairDict → PairDict
unfolding pair_setdefault
cross_one a [] text pairs = pairs
cross_one a (b ∷ bs) text pairs =
    cross_one a bs text (if a == b then pairs else pair_setdefault (ordered a b) text pairs)

unfoldable pub cross : List String → List String → String → PairDict → PairDict
unfolding cross_one
cross [] right text pairs = pairs
cross (a ∷ left) right text pairs = cross left right text (cross_one a right text pairs)

-- `result.setdefault(key, []).append(value)`
abbrev pub append_to : String → String → Dict (List String) → Dict (List String)
append_to key value d = insert key (or_else (get d key) [] ++ value ∷ []) d

-- The publications by arXiv id, and the name of each.
pub record Publications : Type 0 where
  pub by_arxiv : Dict String
  pub names : Dict String

note_publication : Option String → Option String → Publications → Publications
note_publication none arxiv ps = ps
note_publication (some id) none ps = record ps { names = insert id id ps.names }
note_publication (some id) (some arxiv) ps = record {
  by_arxiv = insert arxiv id ps.by_arxiv;
  names = insert id (or_text (some arxiv) id) ps.names;
}

publications_of : List Row → Publications → Publications
unfolding note_publication
publications_of [] ps = ps
publications_of (row ∷ rows) ps =
    publications_of rows
      (note_publication (get_str row "publication_id") (get_str row "arxiv_id") ps)

-- `_members`
member_of : Option String → Option String → Dict (List String) → Dict (List String)
member_of (some artifact) (some psr) d = append_to artifact psr d
member_of (some artifact) none d = d
member_of none psr d = d

unfoldable pub members : String → List Row → Dict (List String) → Dict (List String)
unfolding member_of
members key [] d = d
members key (row ∷ rows) d =
    members key rows (member_of (get_str row key) (get_str row "source_record_id") d)

note_all : String → Dict String → PairDict → PairDict
unfolding pair_insert
note_all project [] out = out
note_all project ((id, text) ∷ linked) out =
    note_all project linked (pair_insert (project, id) text out)

cross_all : Dict (List String) → Dict (List String) → PairDict → PairDict → PairDict
unfolding cross
cross_all top others [] pairs = pairs
cross_all top others (((project, id), text) ∷ links) pairs =
    cross_all top others links
      (cross (or_else (get top project) []) (or_else (get others id) []) text pairs)

-- The items that are mappings.
abbrev mappings : List Json → List Row
mappings [] = []
mappings (obj fs ∷ xs) = as_mapping (obj fs) ∷ mappings xs
mappings (_ ∷ xs) = mappings xs

-- er/normalize.py: the authorProfile and every entry of team.
unfoldable pub hacknation_member_entries : Row → List Row
hacknation_member_entries payload =
    (elim (get_map payload "authorProfile") [ [] ↦ [] | f ∷ fs ↦ (f ∷ fs) ∷ [] ])
    ++ mappings (get_list payload "team")

module _ (u : Unicode) (of_int : ℤ → Float) where
  abbrev repo_url : String → Option String
  repo_url full_name = url_norm u (join ("github.com/" ∷ full_name ∷ []))

  note_archive : Option String → Option String → Dict String → Dict String
  note_archive (some url) (some arxiv) d = elim (url_norm u url) [
    | some n ↦ insert n arxiv d
    | none ↦ d
  ]
  note_archive (some url) none d = d
  note_archive none arxiv d = d

  archive_of : List Row → Dict String → Dict String
  unfolding note_archive
  archive_of [] d = d
  archive_of (row ∷ rows) d =
      archive_of rows (note_archive (get_str row "repo_url") (get_str row "paper_arxiv_id") d)

  urls_of : List Json → List String
  urls_of [] = []
  urls_of (str s ∷ xs) =
      let rest = urls_of xs in elim (url_norm u s) [ some n ↦ n ∷ rest | none ↦ rest ]
  urls_of (_ ∷ xs) = urls_of xs

  code_urls_of : List Row → Dict (List String) → Dict (List String)
  unfolding urls_of
  code_urls_of [] d = d
  code_urls_of (row ∷ rows) d = code_urls_of rows (elim (get_str row "publication_id") [
    | some id ↦ insert id (urls_of (get_list row "code_urls")) d
    | none ↦ d
  ])

  -- The three sources of a link, in order; the first description of a publication stays.
  from_readme : Dict String → String → List Json → Dict String → Dict String
  from_readme by_arxiv full_name [] linked = linked
  from_readme by_arxiv full_name (str raw ∷ xs) linked =
      from_readme by_arxiv full_name xs (elim (get by_arxiv raw) [
        | some id ↦
            setdefault id (join ("arxiv:" ∷ raw ∷ " in " ∷ full_name ∷ " readme" ∷ [])) linked
        | none ↦ linked
      ])
  from_readme by_arxiv full_name (_ ∷ xs) linked = from_readme by_arxiv full_name xs linked

  from_code_urls :
      Dict String → String → Option String → Dict (List String) → Dict String → Dict String
  from_code_urls names full_name none urls linked = linked
  from_code_urls names full_name (some url) [] linked = linked
  from_code_urls names full_name (some url) ((id, us) ∷ rest) linked =
      from_code_urls names full_name (some url) rest (
        if contains url us
        then setdefault id (join (full_name ∷ " in code_urls of " ∷ or_else (get names id) "" ∷ []))
            linked
        else linked)

  from_archive : Dict String → Dict String → String → Option String → Dict String → Dict String
  from_archive by_arxiv archive full_name none linked = linked
  from_archive by_arxiv archive full_name (some url) linked = elim (get archive url) [
    | none ↦ linked
    | some arxiv ↦ elim (get by_arxiv arxiv) [
      | none ↦ linked
      | some id ↦ setdefault id (join ("paper_code_links " ∷ full_name ∷ " x " ∷ arxiv ∷ [])) linked
    ]
  ]

  publications_linked : Publications → Dict String → Dict (List String) → String → Row → Dict String
  unfolding from_readme from_code_urls from_archive
  publications_linked ps archive urls full_name project =
      from_archive ps.by_arxiv archive full_name (repo_url full_name) (
        from_code_urls ps.names full_name (repo_url full_name) urls
          (from_readme ps.by_arxiv full_name (get_list project "arxiv_ids_in_readme") []))

  link_project :
      Publications
      → Dict String
      → Dict (List String)
      → Row
      → Option String
      → Option String
      → PairDict
      → PairDict
  unfolding publications_linked note_all
  link_project ps archive urls project (some id) (some full_name) out =
      note_all id (publications_linked ps archive urls full_name project) out
  link_project ps archive urls project (some id) none out = out
  link_project ps archive urls project none full_name out = out

  company_site : String → String → Option String → Option String → PairDict → PairDict
  unfolding pair_insert
  company_site project homepage (some company) (some website) out = elim (url_norm u website) [
    | some n ↦
        if n == homepage
        then pair_insert (project, company)
            (join ("homepage " ∷ homepage ∷ " == company website" ∷ [])) out
        else out
    | none ↦ out
  ]
  company_site project homepage (some company) none out = out
  company_site project homepage none website out = out

  companies_of : String → String → List Row → PairDict → PairDict
  unfolding company_site
  companies_of project homepage [] out = out
  companies_of project homepage (row ∷ rows) out =
      companies_of project homepage rows
        (company_site project homepage (get_str row "company_id") (get_str row "website_url") out)

  link_company : List Row → Option String → Option String → PairDict → PairDict
  unfolding companies_of
  link_company companies (some project) (some homepage) out = elim (url_norm u homepage) [
    | some n ↦ companies_of project n companies out
    | none ↦ out
  ]
  link_company companies (some project) none out = out
  link_company companies none homepage out = out

  link_all :
      Publications
      → Dict String
      → Dict (List String)
      → List Row
      → List Row
      → CrossLinks
      → CrossLinks
  unfolding link_project link_company
  link_all ps archive urls companies [] out = out
  link_all ps archive urls companies (project ∷ projects) out =
      let id = get_str project "project_id" in
      link_all ps archive urls companies projects (record {
        project_publications =
            link_project ps archive urls project id (get_str project "full_name")
              out.project_publications;
        project_companies =
            link_company companies id (get_str project "homepage_url") out.project_companies;
      })

  unfoldable pub build_crosslinks : List Row → List Row → List Row → List Row → CrossLinks
  unfolding link_all publications_of archive_of code_urls_of
  build_crosslinks projects publications companies paper_code_links =
      link_all (publications_of publications (record { by_arxiv = []; names = [] }))
        (archive_of paper_code_links []) (code_urls_of publications []) companies projects
        (record { project_publications = []; project_companies = [] })

  -- `isinstance(share, int | float)`: a bool is an int
  abbrev share_of : Json → Option Float
  share_of (int n) = some (of_int n)
  share_of (float x) = some x
  share_of (bool b) = some (of_int (pos (if b then 1 else 0)))
  share_of _ = none

  top_contributor :
      Option Float → Option String → Option String → Dict (List String) → Dict (List String)
  unfolding member_of
  top_contributor none project psr d = d
  top_contributor (some share) project psr d =
      if float_le top_contributor_share share then member_of project psr d else d

  unfoldable pub top_contributors : List Row → Dict (List String) → Dict (List String)
  unfolding top_contributor
  top_contributors [] d = d
  top_contributors (row ∷ rows) d = top_contributors rows (
      top_contributor (read share_of (get row "contribution_share")) (get_str row "project_id")
        (get_str row "source_record_id") d)

  unfoldable pub candidate_pairs : CrossLinks → List Row → List Row → List Row → PairDict
  unfolding top_contributors members cross_all
  candidate_pairs links contributions authorships officers =
      let top = top_contributors contributions [] in
      cross_all top (members "company_id" officers []) links.project_companies
        (cross_all top (members "publication_id" authorships []) links.project_publications [])

  -- `_repo_project_by_url`
  repo_project : Option String → Option String → Dict String → Dict String
  repo_project (some project) (some full_name) d = elim (repo_url full_name) [
    | some url ↦ setdefault url project d
    | none ↦ d
  ]
  repo_project (some project) none d = d
  repo_project none full_name d = d

  repo_projects : List Row → Dict String → Dict String
  unfolding repo_project
  repo_projects [] d = d
  repo_projects (row ∷ rows) d =
      repo_projects rows (repo_project (get_str row "project_id") (get_str row "full_name") d)

  -- er/normalize.py; `show_int` is `str` of an int.
  user_id_of : (ℤ → String) → Json → Option String
  user_id_of show_int (str s) = some s
  user_id_of show_int (int n) = some (show_int n)
  user_id_of show_int _ = none

  unfoldable pub hacknation_user_id : (ℤ → String) → Row → Option String
  unfolding user_id_of
  hacknation_user_id show_int entry = elim (read (λ j. j) (get entry "user_id")) [
    | null ↦ user_id_of show_int (read (λ j. j) (get entry "userId"))
    | value ↦ user_id_of show_int value
  ]

  -- `ids.psr_id`
  abbrev pub psr_id : (String → String) → String → String → String
  psr_id uuid5 source key = uuid5 (join (source ∷ ":" ∷ key ∷ []))

  member_psrs : (ℤ → String) → (String → String) → List Row → List String
  unfolding hacknation_user_id
  member_psrs show_int uuid5 [] = []
  member_psrs show_int uuid5 (entry ∷ entries) =
      let rest = member_psrs show_int uuid5 entries in
      elim (hacknation_user_id show_int entry) [
        | some id ↦ psr_id uuid5 hacknation_source id ∷ rest
        | none ↦ rest
      ]

  repo_pairs :
      (ℤ → String)
      → (String → String)
      → Dict (List String)
      → Dict String
      → Row
      → Option String
      → PairDict
      → PairDict
  unfolding cross member_psrs
  repo_pairs show_int uuid5 top by_url payload none pairs = pairs
  repo_pairs show_int uuid5 top by_url payload (some url) pairs = elim (get by_url url) [
    | some project ↦
        cross (member_psrs show_int uuid5 (hacknation_member_entries payload))
          (or_else (get top project) []) url pairs
    | none ↦ pairs
  ]

  repo_candidates :
      (ℤ → String)
      → (String → String)
      → Dict (List String)
      → Dict String
      → List Row
      → PairDict
      → PairDict
  unfolding repo_pairs
  repo_candidates show_int uuid5 top by_url [] pairs = pairs
  repo_candidates show_int uuid5 top by_url (row ∷ rows) pairs =
      let payload = get_map row "payload" in
      let url = elim (get_str payload "githubUrl") as (λ _. Option String) [
        | some s ↦ url_norm u s
        | none ↦ none
      ] in
      repo_candidates show_int uuid5 top by_url rows
        (repo_pairs show_int uuid5 top by_url payload url pairs)

  unfoldable pub hacknation_repo_candidates :
      (ℤ → String) → (String → String) → List Row → List Row → List Row → PairDict
  unfolding top_contributors repo_projects repo_candidates
  hacknation_repo_candidates show_int uuid5 hacknation_projects projects contributions =
      repo_candidates show_int uuid5 (top_contributors contributions []) (repo_projects projects [])
        hacknation_projects []
