-- ===== src/Lib.antt =====
-- A model of the Python side of MIRAGE: the parts of the repository that decide something about
-- honeypot sessions, as functions, with the theorems that make them correct.
--
-- The program. Sensors written in Go record attacker sessions in a database. bridge/ is a worker that
-- fetches the sessions that wait, has the rules and models of ml/mirage/ work out an enrichment for
-- each, and writes it back. ml/mirage/ holds those rules, the tokenizer that turns a session into the
-- input of the embedding models, and the analysis that tells whether sessions belong together.
-- scripts/ prepares the published dataset and the review of its labels.
--
-- The files.
-- - Shared: names that every module uses, Python's builtins on lists and dicts, and their lemmas.
-- - Geo: scripts/geo_lookup.py. `load` builds the two sorted tables, `lookup` searches them by
--   bisection. Geo/Search is about one table, Geo/Lookups about `lookup`.
-- - Campaign: ml/mirage/reid/campaign.py. `detect_campaign` runs `divisibility_candidates`, picks the
--   reference set and confirms the candidates. Children: Candidates, Detection, Reference, Tiers;
--   Corpus is ml/mirage/reid/real_data.py.
-- - Sampler: ml/mirage/reid/pk_sampler.py. `make` is the constructor, `epoch` the iterator; the random
--   source is the interface `Rng`. Children: Rows, Batches.
-- - Tokenizer: ml/mirage/tokenizer/. `fit` builds the vocabulary, Tokenizer/Encode has `encode` and
--   `encode_batch`, Tokenizer/Storage has `save` and `load`, Tokenizer/Normalize has `head_command`.
--   Children for proofs: Vocab, Fitted, Encode/Channels, Encode/Batch, Storage/Roundtrip,
--   Normalize/Bare. Floats, `str.lower` and `normalize_full` are the interface `Runtime`.
-- - Intel: ml/mirage/intel/. Intel/Mitre is mitre.py, Intel/Taxonomy is taxonomy.py, and Intel/Tools is
--   ml/mirage/viz/tool_signature.py. `re.search` is a parameter. Mitre/Rules says which rules apply to a
--   session, Mitre/Calls and Mitre/Called that these are the calls of `add`, Mitre/Techniques what is
--   reported.
-- - Timing: ml/mirage/analysis/timing.py. `classify_session` on the features of the intervals; floats are
--   the interface `Floats`. Child: Labels.
-- - Bridge: bridge/. Bridge/Db is db.py: a connection keeps what is committed, what the open
--   transaction sees, whether it is aborted, and which coming statements the server fails.
--   Bridge/Connect is `connect_with_retry`, Bridge/Adapter is schema_adapter.py. Bridge/Worker is
--   worker.py: `process_batch` is
--   `_process_batch`, `run_once` the loop of `run` with `once`; the enricher is a parameter.
--   Children for proofs: Db/Atomic, Db/Faultless, Db/Pending, Worker/Drain, Worker/Poison.
-- - Labels: scripts/sample_for_labeling.py in Labels/Sampling, scripts/compute_label_agreement.py in
--   Labels/Agreement. `random.Random.shuffle` is the interface `Shuffler`.
-- - Health: scripts/daily_health_check.py. One child for each check: Volume is `evaluate`, Beats
--   `check_heartbeats`, Hours `check_hour_coverage`, Pairs `check_accepted_pairs`, Builds
--   `check_builds`; Report is `main`, which puts them together. Their children hold the proofs. A check
--   that is not asked for adds nothing to the report, as in the source.
--   Floats are the interface `Rates`.
-- - Deception: ml/mirage/deception/. The module itself has the actions and `_effects`; Env is
--   `DeceptionEnv` of environment.py with an episode of `evaluate_policy` of train.py, Live is live.py
--   and Policy the category and the heuristic of policy.py. Env/Episodes is about what an episode
--   reaches, Live/Mirror about the tracker against the environment, Live/Sessions about the engine.
--   Floats and the random generators are the interface `World`.
-- - UbuntuDiff: scripts/ubuntu_diff.py, `check` and `regen`; the container and JSON are parameters.
-- The Witnesses modules hold tests and the theorems at concrete inputs.
--
-- Conventions. Numbers are natural; times are whole milliseconds and not negative. A dict is a list of
-- pairs in the order of insertion. A raised exception is `none`, or a constructor of a result type
-- where its message matters. These functions run on fuel: `bisect_loop` with one more than the length of
-- its list, which halves in every round, and `run_once`, whose theorem asks for more fuel than there
-- are pending sessions, since every pass classifies at least one. `play` gets the
-- cap of the steps, which ends an episode. In Health, `scan`, `run_end` and
-- `check_days` get the number of hours or days that are left, and the theorems show it is enough.
--
-- Assumed: the container of UbuntuDiff gives a command the same output each time; in Bridge/Db it is
-- statements that the server fails, not a commit or a rollback. Settings of 0 at which the source
-- divides by 0 or takes the median of no days (`max_steps`, the thresholds of Health) are outside the
-- model, where the quotient is a total function of the parameters.
--
-- Not modelled: reading and writing of files and CSV, command lines, signals and sleeping, the
-- formatting of reports, everything on tensors, the metrics that divide floats, the regular
-- expressions of `normalize_full`, the JSON forms of sessions, and the Go code.
pub mod Shared
pub mod Geo
pub mod Campaign
pub mod Sampler
pub mod Tokenizer
pub mod Intel
pub mod Labels
pub mod Timing
pub mod Bridge
pub mod Health
pub mod Deception
pub mod UbuntuDiff
