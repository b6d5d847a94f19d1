-- ===== src/Lib.antt =====
-- The core of NorvesEditor's Rust backend: the edit history of the editor, the client's side of the
-- bridge protocol by which it speaks to the engine, the log that it keeps of the engine, and what
-- the MCP server keeps: the scope of a client, the user's confirmations, and the operations done.
--
-- The history (apps/editor/src-tauri/src/edit_service/history.rs) is the state that the edit
-- service keeps of one connection: markers of accepted edits, an undo and a redo stack whose
-- entries belong to groups, an open group, a group whose undo or redo failed half-way, and a cache
-- of corrections, by which an old value that the screen captured before later edits is corrected or
-- refused. The service prepares an edit or an action on it, sends it to the engine, and records the
-- end. The engine is reached over the bridge: envelopes
-- (bridge/crates/norves-bridge-core/src/envelope.rs) go through a dispatcher task
-- (bridge/crates/norves-bridge-editor-client/src/dispatcher.rs) that matches responses to requests
-- by id in a table (norves-bridge-core/src/correlation.rs), over a connection that is dialled with
-- retries (norves-bridge-editor-client/src/reconnect.rs). An MCP client's write is checked against
-- its scope, a part of the scene's tree, confirmed by the user where that is asked for, handed to
-- the edit service, and recorded.
--
-- The files:
--   Common: the shared names, Boolean tests, equality as an interface, lists, maps, words, texts.
--   History/Types: the data of history.rs. History/Corrections: `CorrectionCache`, its bounds in
--     Bounds and what it remembers in Tracking. History/State: `HistoryState`, its resets and
--     stacks. History/Records: records and engine answers. History/Prepare: `prepare` and
--     `resolve_capture`. History/Groups: the operations on the open group and groups.rs.
--     History/Recording: `record_success_in_group` in parts, and what an edit sets in
--     Recording/Effects. History/Actions: `prepare_action`, pending groups, failures.
--     History/Finish: `finish_action_success` and `finish_group_step`. History/Machine: every
--     operation that changes the state as one step, and runs of them.
--   Bridge/Envelope: `Envelope`, `ValidatedEnvelope`, their conversions and the decoders of
--     codec.rs. Bridge/Correlation: `PendingTable` and `SeqMonitor`. Bridge/Dispatcher: `TaskState`
--     and its loop as a machine on commands and frames. Bridge/Reconnect: `next_backoff` and
--     `connect_with_retry`.
--   LogBuffer: `LogBuffer` of apps/editor/src-tauri/src/mcp/log_buffer.rs, which keeps the
--     engine's log for the MCP server, its operations in Operations, the lengths of texts, the
--     limits and runs of all operations in Texts, Bounds and Runs; `read` in Pages, how a page is
--     continued in Pages/Continued, the order of the records in Pages/Order and, over all runs, in
--     Pages/Ordered.
--   Mcp/Authorization: the settings, operations and errors of
--     apps/editor/src-tauri/src/mcp/authorization.rs. Capabilities: what they require. Comparison:
--     the derived comparisons. Scope: the index of a scene's tree, `from_result` and
--     `record_component_snapshot`. Checks: `check_operation` and all that it calls. Forest, Walks,
--     Subtree and Reach: the trees, the two loops on them, the index built, and what lies below an
--     identifier. Deletion and Owners: the check of deletions, and the owners of components.
--     Targets, Covered and Replays: what a record of the history touches, and the check of the
--     history. Capabilities/Sorted: their order.
--   Mcp/Confirmation: the broker of apps/editor/src-tauri/src/mcp/confirmation.rs as a machine.
--     Published: what it holds and shows. Decisions: which answers reach a call.
--   Mcp/Operations: `OperationStore` and its handles of
--     apps/editor/src-tauri/src/mcp/operations.rs, the files in Storage, what a step keeps in Kept,
--     the records over all runs in Records.
--   Mcp/Permits: `McpAuthorization` and `McpRequestLease` of apps/editor/src-tauri/src/mcp.rs
--     with the permits for writes. Expiry: how long a permit is good. Use: that it is good at
--     first. Binding: for what it is good. Revocation: what a revocation clears away.
--   Mcp/Authentication: `McpHttpAuth` of the same file, with the token of
--     apps/editor/src-tauri/src/mcp_token.rs. Tokens: which requests get a lease. Sessions: how
--     long it is good. Mcp/Connections: its `ConnectionRegistry` and `ConnectionState`. Keys: the
--     keys of the requests at work. Cancellation: what a cancellation reaches.
--   Tests: small values and runs.
--
-- How the model stands to the code. A method that takes `&mut self` is a function from the state to
-- the new state, beside its result. Of a list that stands for a vector of the history the head is
-- the vector's back. A clock's reading is an argument, in nanoseconds. A hash map is an association
-- list in the order in which the map iterates. `u64` wraps around where the code says
-- `wrapping_add` and stops where it says `saturating_add`. JSON values are a type of serde_json:
-- the history reads them through an interface, with `js_stringify` of history.rs as one of its
-- functions; the envelope takes the values and the maps as two type parameters. `str::trim`, the
-- random bytes of a secret, the JSON encoding and decoding, the transport and the clock of the
-- retries are parameters, and so are the size of a log record without its texts, which the compiler
-- chooses, and the reading of a log's parameters. A scene's tree is what the parser of
-- norves-bridge-editor-client/src/scene.rs gives. A call that asks for a confirmation and its
-- channel are one number. A file is its size, and the failures of the file system are arguments. A
-- request's two cancellation tokens are lists of the numbers of the requests cancelled, and which
-- tokens are still held is an argument. A connection is a number, and one that is freed is no key
-- of the map of the connections; that the last reference to it goes is an event. The decoding of
-- base64, the comparison of constant time and `to_str` of a header's value are parameters. A map
-- that the code keeps in the order of its keys is put into it where it is gone through. The number
-- of the next call of the operation store is not bounded, a `u64` in the code. An error's message
-- is replaced by a name for it. `EditDiscardResult` names its group by the key and not by the
-- printed text. The dispatcher's answers, frames and events are logs; a select between commands and
-- frames is the order of the inputs, and every exit of the loop is one input, `stop`, since each
-- fails all pending waiters.
--
-- Bounds and fuel. The loop of `CorrectionCache::insert` runs on as much fuel as the cache has
-- entries, since each turn removes one, and so do the loops of the log buffer. `connect_with_retry`
-- runs on fuel for its attempts; the smallest sleeps that make up the budget bound them. The first
-- loop of `from_result` runs on one turn more than the budget has nodes, since each turn counts
-- one; the other loops on a scene's tree run on the number of its nodes, since each turn takes one
-- that was not taken before. Sums of durations that the standard library refuses are far above the
-- bounds used and are not modelled.
--
-- Not modelled: the summaries of the history for the screen and the texts of identifiers, the edit
-- service's queue, the rest of the MCP server (its HTTP endpoint, its limits on connections and
-- streams, and its tools), the bridge state, the engine's process, settings, the TypeScript screen
-- and the C++ SDK, which lie around these parts; much of it is input and output.
pub mod Common
pub mod History
pub mod Bridge
pub mod LogBuffer
pub mod Mcp
pub mod Tests
