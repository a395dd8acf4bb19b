-- ===== src/Lib.antt =====
-- Joiny-Mnemonic, a local memory for coding agents: a model of the deterministic core.
--
-- The program keeps an append-only, hash-chained log of events in branches
-- (src/joiny_mnemonic/storage.py). Every event carries the channel that it came through, from which
-- its authority is derived (src/joiny_mnemonic/provenance.py). The ledgers over the log (workstreams,
-- memory candidates, security findings, settlements) change their status by one gate
-- (src/joiny_mnemonic/transition_rules.py), which asks for that authority. Memories carry validity
-- intervals with partly known bounds (src/joiny_mnemonic/temporal.py).
--
-- Files, and the code that they model:
--   Prelude: Boolean tests on the native numbers, outcomes of fallible code, lemmas on lists.
--   Json: the values of the standard json module, dictionaries and the order of sort_keys.
--   Temporal: temporal.py. Kleene has Truth, and3, or3 and not3; Envelopes has Envelope, _lt, _le,
--     lt3, le3, eq3 and now_envelope; Intervals has Interval, its relations, validity_status,
--     effective_end and possible_conflict. Denote says which instants an envelope may denote; Validity
--     uses it.
--   Provenance: provenance.py, origin_evidence_type and is_host_logical_user.
--   Transitions: transition_rules.py, the four flows and rules and validate_transition. Gate states
--     what is accepted, Ledger has runs of accepted changes, Trust joins the gate and the provenance.
--   Store: storage.py, the tables. Lineage has create_branch, _lineage_locked and query_events, and
--     _event_visible_locked of task_storage.py; Append has _append_event_in_tx and start_session;
--     Ingest has append_event, append_host_event, _append_events_once and its callers; Verify has
--     verify_chain. Sound is the invariant of the tables, History and History/Forks are about what a
--     branch sees, Search about the filters text, file and limit, Artifacts has append_artifact with
--     Artifacts/Whole on the chain, Views has save_tool_output_view and Views/Hashed what it does to
--     the chain, Retry about receipts, Verify/Append and Verify/Tamper about the chain, Reach and
--     Reach/Log about all stores that the writes can build.
--   Ledgers: the tables over the log. Sources has _assert_source_events; Tasks has
--     create_task_version, get_task and bind_task_session of task_storage.py; Candidates has
--     transition_candidate, settle_candidate and transition_finding of storage.py. Tasks/Versions
--     inverts a call, Tasks/Authority says who finishes and reopens a task, Tasks/Log and Tasks/Again
--     are about the versions, Tasks/Bindings about sessions, Candidates/Gated and Candidates/Once
--     about what is recorded, Candidates/Acknowledged about findings, Sources/Visible about
--     _assert_source_events. Requests has append_candidate_request, append_finding_ack_request and
--     record_security_finding, with Requests/Repeated and Requests/Findings on calls that are made
--     again.
--   Ledgers/Policies: activate_policy and active_policy of storage.py, policy_contract.py; Granted is
--     about the origin of policies.
--   Memory: the memory records of storage.py: get_memory, list_memories, memories_as_of and
--     memory_lineage_links; Derive has derive_memory, common_event_trace of storage_support.py and
--     assert_agent_finalized_authority of finalization_storage.py. Derived inverts a call, Kept is
--     about what a derivation leaves alone, Current about what is superseded, Versions is the
--     invariant of the table, Trusted is about authority and sources.
--   Extraction: Lease has the worker's wakeups and leases of storage.py (Held follows one lease,
--     Rounds has whole rounds); Queue has register_extractor_config, the runs and attempts;
--     Queue/Pending has pending_extraction_events, preceding_canonical_events and a failing round of
--     process_backlog of extraction.py (Attempts is the invariant, Drained is about rounds, Settled
--     about processed events); Evidence has _zone_map, locate_evidence and validate_candidate of
--     extraction.py, with Zones, Located and Overlaps about them. Extraction/Commit has
--     _existing_auto_memory_locked and the rows of commit_extraction_success of storage.py, whose loop
--     is in Commit/Steps; Commit/Rounds inverts a round, Commit/Kept is about the log and the queue,
--     Commit/Agreed about what passes without review, Commit/Linked about candidates and memories.
--     Extraction/Backlog has the rounds of process_backlog of extraction.py, with Settles and Counted.
--   Snapshots: the snapshots of storage.py, with _apply_snapshot_delta, _materialize_snapshot_locked
--     and get_snapshot; Creation has create_snapshot and snapshot_tail; Materialized is about what is
--     read, Created about a new snapshot, Tails about the events that follow one; Pruning has
--     prune_snapshot_blobs, and Pruning/Guarded is about the snapshots that it spares.
--   Security: security.py, the scanner of private regions; Hidden is about what it hides.
--   Governor: governor.py, thresholds, decide and estimate_context; Governor/Counters has the hook
--     context counters of storage.py.
--   Tests modules hold runs on small inputs.
--
-- State is passed explicitly: a method takes the tables and returns new ones or an error, as a
-- transaction commits or rolls back. An error is a constructor for each raise of the code. Identifiers
-- and times that the code draws are arguments (Stamp). SHA-256, json.dumps, the redactor and
-- str.casefold are parameters, and so is math.ceil of a floating point product; the one property that
-- asks something of the digest names it as a hypothesis. The tests of a floating point literal (the
-- risk and the cost of a memory) and the comparison of a confidence with its threshold are parameters
-- or arguments, and so are str.isspace, what _normalize_temporal_input answers and what an extractor
-- answers or raises.
--
-- Numbers are natural. An aware datetime is the instant that it denotes, in microseconds. Python's
-- negative fork_event_seq, which create_branch refuses, has no counterpart. The loop of
-- _lineage_locked has fuel for each row of the table and one round more, and this is enough for every
-- table that the code builds. The recursion over the parents of a snapshot has as much, which is
-- enough for every table.
--
-- Not modelled: SQLite itself, schema migrations, triggers, locks and threads; the full-text index;
-- normalization of temporal bounds and query windows; the parsing of an extractor's answer and the
-- verifier, the patterns that find secrets, the actions of the governor, the replay of snapshots,
-- retrieval, prompts, hooks, command line, servers and plugins.
mod Prelude
pub mod Temporal
pub mod Json
pub mod Provenance
pub mod Transitions
pub mod Store
pub mod Ledgers
pub mod Memory
pub mod Extraction
pub mod Security
pub mod Governor
pub mod Snapshots
