-- ===== src/Lib.antt =====
-- recserve: the recommendation service, its feedback journal and its clients.
--
-- The program serves film recommendations. A retrieval engine (C++, not modelled) ranks catalog rows
-- for a user; recserve_pilot is a local policy layer with a SQLite feedback journal, and recserve_app
-- is the account service with its own selection policy. Both talk to the engine over a framed socket
-- protocol, and neither trusts what it replies. scripts/agent.py tunes the engine by benchmarks, and
-- the other scripts that are modelled check bundles and compare benchmark runs.
--
-- Prelude.antt and its children: shared names, lists, texts, integers, dicts and insertion sort.
-- Exec.antt: results, actions on a state that may raise, and transactions.
-- Wire.antt: struct.pack, struct.unpack and the reads before a deadline that both clients use
--   (recserve_pilot/transport.py).
-- Pilot/Payload.antt: the validation of requests and events (recserve_pilot/store.py: identifier, the
--   checks at the start of Store.apply). A decoded value is null, a bool, an int, a text or something
--   else, which every check refuses.
-- Pilot/Tables.antt, Pilot/Store.antt: the tables and the methods __init__, connection, cached,
--   existing, snapshot and publish of Store. A table is the list of its rows, the newest first; a
--   column of JSON text holds the decoded value; a transaction works on a copy that commit puts on disk.
-- Pilot/Apply.antt: Store.apply and Store.set_unavailable. The crash hook ends the process before or
--   after the commit.
-- Pilot/Fence.antt, Pilot/Journal.antt: steps of the store by any clients, the generation, and the
--   invariant of the file.
-- Pilot/Model.antt: identities, seen history, popularity and ranking (recserve_pilot/model.py). Floats
--   are a type with the operations that the code uses.
-- Pilot/Transport.antt: Upstream.retrieve (recserve_pilot/transport.py).
-- Pilot/Service.antt: Pilot.recommend (recserve_pilot/service.py). The replies of the upstream, the
--   time, and what other clients commit between the transactions are parameters. The loop over
--   growing counts runs on a fuel of 4, since the count doubles
--   from min(64, n) to min(512, n). The three attempts are the source's own bound.
-- App/Selection.antt: select_items (recserve_app/selection.py). The retrieval is a function from the
--   count to candidates or an exception.
-- App/Schema.antt: the tables of recserve_app/schema_v1.py, and the request bodies of
--   recserve_app/contracts.py.
-- App/Accounts.antt: rate limit, login flow, login, sessions (recserve_app/db.py: rate, start_flow,
--   consume_flow, login, authenticate, lock_user). Digests, case folding, random values and the clock
--   are parameters; one reading of the clock serves a call.
-- App/Deletion.antt: delete_account, replay_deletions and maintenance of the same file. The deletion
--   ledger is an action on its entries, which a call that fails may have changed too.
-- App/Cache.antt: Model.vector of recserve_app/model.py, the LRU cache of preference vectors, with the
--   fold-in and the other threads as parameters.
-- App/Principals.antt: principal and logout of recserve_app/api.py. The fields of a request are given.
-- App/Policy.antt: account, change_preferences and event of recserve_app/policy.py.
-- App/Recommend.antt: recommend of the same file, with what other clients commit before each of its
--   transactions as a parameter. The preference vector and the retrieval are one parameter.
-- App/Retrieval.antt: the RSV2 client (recserve_app/retrieval.py: connect, query, _query). A session
--   says which addresses answer and what arrives; the tests of the time that is left are part of it.
-- App/Model.antt, App/FoldIn.antt: Model.__init__ and fold_in of recserve_app/model.py. The arrays
--   come with the results of numpy's comparisons; vectors and matrices are types with the operations
--   that the code uses.
-- App/Admission.antt, App/Routes.antt: Bounds and the routes of recserve_app/api.py, with
--   Database.export. A route is an action on the tables by an account that principal has admitted.
-- App/Reconcile.antt: reconcile of recserve_app/privacy.py over a ledger of user identifiers.
-- App/Reconcile/Objects.antt: record and read_all of recserve_app/privacy.py. The object store, the
--   cipher and UUIDs are parameters.
-- App/Identity.antt: exchange of recserve_app/oidc.py. App/Settings.antt: recserve_app/config.py, and
--   secrets and main of recserve_app/entrypoint.py. App/Telemetry.antt: the labels and counts of
--   recserve_app/telemetry.py.
-- Pilot/Http.antt: Handler and Server of recserve_pilot/service.py, over Pilot.recommend and
--   Store.apply. A request comes with its headers and what arrives of its body; an answer that the
--   connection does not take is dropped after what was committed.
-- Agent/Space.antt, Agent/Diagnosis.antt, Agent/Planning.antt: the action space, diagnose and the
--   planners of scripts/agent.py. A value of a knob is an integer or a text.
-- Agent/Gate.antt, Agent/Loop.antt, Agent/Run.antt: calibrate, verify, the iterations of run_loop, its
--   beginning and its result, validate_pr and the planners of main. The benchmark is a function from
--   the number of the measurement and the configuration to a snapshot: a run that fails ends the
--   process. The loops run over the iterations and replications that are left, so that no fuel is chosen.
-- Agent/Loop/Progress.antt: the specification of a run, a relation on configurations and numbers of
--   measurements.
-- Scripts/Bundle.antt: verify of scripts/bundle.py over an abstract directory.
-- Scripts/Bundle/Serving.antt: main of scripts/bundle.py. The disk is the manifest and the file
--   written before it, which are one if the manifest ends in .tmp; the directory of the manifest
--   and that of what it links to have two paths. The result is the command that replaces the process.
-- Scripts/Regression.antt: verdict and the order of runs of scripts/regression_gate.py, and the exit
--   codes of scripts/perf_ci.py.
-- Tests.antt and its children: small instances.
--
-- Assumed: transactions of SQLite and PostgreSQL are serial and atomic, JSON reads back as the value
-- written, and clocks give natural numbers of milliseconds. Not modelled: the wiring of the web
-- framework and its cookies, the connection to the bucket of the ledger, migrations, the C++ engine, the web client, the
-- deployment, and the scripts that measure, prepare data or write reports.
pub mod Prelude
pub mod Exec
pub mod Wire
pub mod Pilot
pub mod App
pub mod Agent
pub mod Scripts
pub mod Tests
