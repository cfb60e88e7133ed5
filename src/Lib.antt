-- ===== src/Lib.antt =====
-- snow-cli is a command-line client of ServiceNow, written in Rust, with two executables: snow-cli,
-- and snow-cli-ro, which offers only commands that read. A command line is parsed into a `Commands`
-- value (src/cli/args.rs), the execution policy decides whether it may run (src/policy.rs), and its
-- implementation calls the client (src/client/), which checks each request against the policy again.
-- The values of arguments that go into URLs and queries are parsed into types that cannot hold a
-- dangerous text (src/models/identifiers.rs, src/models/order_by.rs).
--
-- Which file models which part:
--   Base and its children: text as the list of its code points, the functions of `str`, `char` and
--     `usize` that the program calls, lists measured by native numbers, results.
--   Identifiers: src/models/identifiers.rs. `table_name`, `sys_id`, `path_segment` and
--     `encoded_query_value` are the `TryFrom<String>` implementations, with their messages.
--   OrderBy: src/models/order_by.rs. `parse` is `FromStr`, `to_string` is `Display`, the rest keeps
--     its names. Children: Pieces, Carets and Canonical (the text functions on joined clauses and on
--     valid keys), RoundTrip, Query and Fields (the properties), Tests.
--   Pagination: src/client/pagination.rs.
--   Table: src/client/table.rs. The request function `get_with_params` is a parameter that takes the
--     state of the client and returns the state after it. `round` is one pass through the loop's
--     body, `take_page` what it does with a parsed page, `loop` the loop. Children: Rounds, Bounds,
--     Pages and Complete (what a round keeps), Fetch (the properties), Tests.
--   Policy: src/policy.rs; Policy/Commands: src/cli/args.rs and src/cli/args/; Policy/ReadOnlyCli:
--     src/cli/readonly_args.rs. Each nested `match` of `read_only_command_decision` is a function
--     (`table_decision`, `snu_decision`, ...) in Policy/Decisions. What a command carries beside a
--     nested subcommand is a value of a parameter type `F`, since the policy and the mapping only
--     pass it on. Other children: Surface, Permitted and Exports (the two surfaces beside the policy),
--     Laws (the properties), Tests.
--   Origin: the checks on URLs of src/client/core.rs, over the `url` crate as a parameter. Children:
--     Laws, Tests.
--   Cookies: `extract_jsessionid_from_headers` of src/client/session.rs and `merge_cookie_header` of
--     src/config/native_session.rs. Children: Laws (the merged list as an abstract map), Tests.
--   Json: the values of `serde_json`; the parser is a parameter where one is used.
--   ApiError: `ApiError::from_status` of src/client/error.rs and what it calls; ApiError/Scrub:
--     `scrub_secrets`, on the rest of the text where the source has indices into its bytes. Other
--     children: Fuel (lemmas on its fuel), Redact and Laws (the properties), Tests.
--   Transport: src/client/transport.rs from `get` to `request_inner`, and
--     `observe_session_response_headers` of src/client/session.rs. A computation is a function of the
--     client that gives a result and the client after it (`Action`); the authenticator, reqwest and
--     the clock are a record of operations (`World`). The client has one field more than in the
--     source, the events so far, so that what was sent can be stated. `send` is the loop's body up
--     to the response, `settle` and `renew` are the retry, `attempts` is the loop. Children: Runs and
--     Laws (the loop as a relation on events and states of the world), Drafts (the requests of a run), Requests (the
--     properties), Tests.
--   Gates: src/snu/gates.rs and `normalize_origin` of src/snu/protocol.rs; Gates/Preflight: the
--     decisions of `negotiate_capabilities` and `preflight` of src/snu/bridge.rs, with the helper
--     status at the three points where the task reads it. Children: Snapshots, Classify and Decisions
--     (the properties), Tests.
--   Bridge: the connection to the helper tab of src/snu/bridge.rs, and the messages of
--     src/snu/protocol.rs. The functions that run as tasks (`attach_connection`, `detach_connection`,
--     `deliver_message`, `heartbeat_loop`, the part of `request_bound` under the lock) are programs
--     of steps, a step for each lock or atomic operation; a step relation lets the tasks take turns
--     in any order, begin, and be cut off where an abort or a dropped future cuts them off.
--     Bridge/Messages: the messages and matchers; State: what the tasks share; Steps: `run_task` and
--     the relation. Children for proofs: Cases, Waiters, Tended and Waiting (who fails a request),
--     Drained, Current and Generations, Support (the helper's status), Answers and Answered, Tests.
--   Broker: the broker of src/snu/broker.rs. Sessions is `BrokerState` with its methods, over Origins,
--     a `HashMap` as the list of its entries in the order of its iteration; `BrokerOp` is what happens
--     to the state under its lock. Dispatch is the part of `dispatch` for actions, over Events: what is
--     done is a list of events, and what the bridge, the user and the clock answer at each point is an
--     `Environment`. `send_action_with_refresh` and `send_legacy_action_with_refresh`, which differ
--     in what they wait for and in what they require of the helper, are one function over a `Route`.
--     Control is the rest of `dispatch` that concerns sessions. Lower case and the codec of a session
--     are parameters. Children for proofs: Cells and Kept (the sessions), Course and Discipline (what
--     is sent), Replies (what comes back), Codecs and Target (to which instance), Served (the requests
--     on sessions), Tests. The status report, the files of the sessions, the sockets between the
--     processes and the lock that lets one legacy action pass at a time are not modelled.
--   Trees: `BTreeMap` and `BTreeSet` with text keys, as ascending lists; Trees/Laws: their lemmas.
--   Dataset: packages of tables, src/cli/commands/data/package.rs. Types: the types and a record's
--     values as text; Order: `topo_sort_dependencies`, with its queue and the maps it changes;
--     Tables: `topological_table_order` and `topological_manifest_order`, which are one function on
--     what they read of a table, `required_source_keys` and `manifest_table_map`; Validate: the checks
--     of the references in `build_package_validation_report`, an issue being without its message;
--     Import: `remap_reference_fields` and the loops of the import; Package: `handle_import_package`.
--     The files are a function, the server is an operation that creates a record, and what the checks
--     by the schema find is a parameter. Children for proofs: Edges, Visits, Left, Rounds and Sorted
--     (the order), Files, Required and Ordered (the maps), Ids, Remap, Records, Resolved, Known and
--     Complete (the import), Imported (the package), Tests. The export is not modelled.
--   Preview: `preview_record_fields` of src/cli/truncation.rs. Children: Fields and Pointer (the
--     properties), Tests.
--   ErrorReport: src/error.rs, with `ValidationIssue` of src/models/validation.rs and
--     `classify_auth_failure` of src/auth/mod.rs. An `anyhow` error is its text and the typed errors of
--     its chain; each downcast of `known_error_output_and_exit_code` has its place in the order in which
--     they are tried, and the error with the first place is written. Children: Errors (the types),
--     Bodies (the parts of what is written), Laws and Chains (the properties), Tests.
--
-- Bounds and fuel. `usize` has 64 bits: `checked_add` and `saturating_add` write out the limit, and
-- the decimal parser refuses what lies behind it. The pagination loop runs on fuel; with pages of at
-- least one record, one round more than there are offsets left in a machine word is enough for any
-- server, and one round more than the limit if there is one. A page size of 0 without a limit is
-- excluded, since the program then repeats the same request as long as the server answers. The loop
-- of `scrub_secrets` has the length of its text as fuel, and takes a character off in each round; the
-- retry recurses on the number of retries that are left.
--
-- Not modelled: the network, the files, the keychain, the terminal, log lines, JSON and URL parsing
-- (parameters where they are needed), and the commands that only call the client and print.
mod Base
pub mod Identifiers
pub mod OrderBy
pub mod Pagination
pub mod Table
pub mod ErrorReport
pub mod Policy
pub mod Origin
pub mod Cookies
pub mod Json
pub mod ApiError
pub mod Transport
pub mod Gates
pub mod Bridge
pub mod Broker
pub mod Trees
pub mod Dataset
pub mod Preview
