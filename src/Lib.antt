-- ===== src/Lib.antt =====
-- Venture Hunt: a sourcing pipeline for an early-stage fund. Scrapers fill bronze tables, entity
-- resolution links the records of people to persons, scoring ranks ventures, and the app writes to
-- founders and interviews them. This library models the parts of it that decide what is written
-- where and to whom.
--
-- Base has what all parts share: dicts in insertion order, lists, exceptions as Result, sorting,
-- doubles by their bits. Json is the value type of contracts/models.py with the typed readers of
-- scrapers/common/jsonutil.py.
--
-- Tools, tools: Norm is norm.py, Erasure is erase_person.py; Erasure/Suppression joins its plan with the
-- filter of Er/Normalize.
--
-- Scrapers, scrapers/common: Runner is execute_run, _drain and _flush of base.py. The sink, the state
-- store and the registry of tables are an Environment, asked with the calls made so far, and a run
-- is its list of calls, its buffers and its tally. A scraper is a Stream: batches, already
-- normalised, that end or raise. Runner/Delivery, Runner/Cursors and Runner/Returns hold its
-- theorems. Http is http.py: the rounds of the retry loop are counted down from MAX_ATTEMPTS (5), so
-- the loop ends; Http/Retries reads its result off the answers, which the state of the network
-- records. Sql is require_identifier of state.py and _escape of er/unmerge.py; Memory is
-- MemoryStateStore and NullSink.
--
-- Er, er: Models, Normalize (the records and their filter), Allocator, Cluster, Unmerge,
-- Adjudicate, Connections and Survivorship are the files of those names, Crosslinks and Rules are
-- rules.py, Splink is splink_job.py, Quality is the pairs and the corroboration of quality.py.
-- Pipeline is _link_and_mint with the review rows and
-- _assert_one_active_link of pipeline.py; Pipeline/Stages has the matching stages and Pipeline/Run
-- is run_pipeline: the rules find the matches, Splink and the model add to them, Cluster joins and
-- links them, the assertion closes the matching, and Survivorship and Connections write the persons
-- and their graph. networkx is a parameter whose contract is Components of Graph; the model client,
-- the clock, _predict of Splink, the similarity of names, uuid5, sha256, rounding, dates and the
-- arithmetic of doubles are parameters without a contract. The children of a module hold its
-- theorems: Cluster/Guard, Cluster/Links, Rules/Pairs, Rules/Reasons, Adjudicate/Settled,
-- Normalize/Rows, Connections/Once, Connections/Edges, Pipeline/OneLink, Pipeline/Review,
-- Pipeline/Stages/Sound, Quality/Sources, Quality/Corroborated,
-- Survivorship/Build/Persons, Unmerge/Plan, Unmerge/Effect; Pipeline/Run has
-- its own.
--
-- App, app: World is what app/outreach.py and app/interview.py run against, an Environment of seams
-- (store, mailer, language model, rescorer, clock, ids, tokens, hashing) and the World that they
-- change: the store, the mails sent, the open interviews. An action keeps what it wrote before it
-- raised. Store is the base tables of FixtureStore of app/store.py. Outreach and Outreach/Sending
-- are outreach.py, Interview and Interview/Completion are interview.py, Auth is auth.py.
-- Outreach/Suppression, Outreach/Transition, Interview/Consent, Interview/History, Interview/Token,
-- Interview/Gate, Interview/OptOut, Store/Overlay and Store/Refines hold the theorems; Store/Backing puts
-- FixtureStore under the outreach and the interview.
--
-- All loops but that of Http are over lists, so no fuel is needed. Numbers are unbounded as in
-- Python; a timestamp is its microseconds. Ids that Python compares as values are texts or None
-- here. The witnesses that run the theorems on small inputs are in the modules called Tests.
--
-- Not modelled: the clients of single sources, the extractors of the normalization, scoring, the HTTP
-- routes, the warehouse, and the frontend. They are input and output, third-party models or
-- floating-point scores, or are not yet treated; the normalized rows are an argument of
-- run_pipeline. Splink is taken to answer: a run in which it raises ends with its exception, which
-- is not modelled.
pub mod Base
pub mod Json
pub mod Tools
pub mod Er
pub mod Scrapers
pub mod App
