-- ===== src/Lib.antt =====
-- The relay under fusion_relay/ puts the Devin CLI's lead requests through a Codex subscription. This
-- library models the parts of it that keep the protocol and the records straight:
--
--   Common      the names that all modules share; results, lists, Boolean tests, JSON values
--               (Common/Json)
--   Wire        fusion_relay/wire.py: varints (Wire/Varint), messages (Wire/Message, the untyped decoder in
--               Wire/Message/Plain), Connect frames (Wire/Frames); and `ConnectObserver` of fusion_relay/native_stream.py (Wire/Observer)
--   Journal     fusion_relay/operations.py: the table of operations (Journal/Rows), `run` and `lookup`
--               (Journal/Run), and the delivery of results (Journal/Delivery)
--   Approvals   fusion_relay/approvals.py: scopes and tickets (Approvals/Ticket), the manager's state
--               (Approvals/Manager), `request` and `decide` (Approvals/Operations), `wait` and
--               `authorize` (Approvals/Passing), `revoke` and `close` (Approvals/Revoke), all
--               calls as steps (Approvals/Steps)
--   Leases      fusion_relay/leases.py: the state (Leases/State), the queue and the rounds of `acquire`
--               (Leases/Acquire), observations, actions, release and revocation (Leases/Act), all
--               calls as steps with the actions under way (Leases/Steps)
--   Ledger      fusion_relay/continuation.py: bindings and sealing (Ledger/Binding), `visible_items`
--               (Ledger/Visible), the tables (Ledger/State), `reserve` (Ledger/Reserve), `commit` and the
--               settling calls (Ledger/Commit), offers and acknowledgements (Ledger/Accept), epochs and
--               `retire_scope` (Ledger/Epoch), `find_carry_candidate` (Ledger/Epoch/Candidate), all
--               calls as steps (Ledger/Steps)
--   Host        fusion_relay/continuation_host.py: `execute`, which settles what the ledger reserved
--   Accounting  fusion_relay/accounting.py: the tables and `admit` (Accounting), `complete`,
--               `acknowledge_unknown` and the other calls (Accounting/Complete), all calls as steps
--               (Accounting/Receipts)
--   Budget      fusion_relay/payload_budget.py: `measure_body` and the size checks
--   Usage       fusion_relay/usage.py: `record_usage` with its entries, and `aggregate` (Usage)
--
-- A function has the name of the source's, and a method takes the state and returns it changed; an
-- exception is an `err` of the component's error type, one for the errors a caller cannot tell apart.
-- Bytes are numbers below 256 in a list, and `buf[pos:]` is the list that is left. A table of SQLite
-- is the list of its rows in the order of insertion. Random ids, the clock and callbacks are arguments.
--
-- Loops over a buffer take its length as fuel: each round consumes a byte or more, and so its
-- length is enough. `epoch_chain` takes the 1024 rounds that the source gives it. A step relation has
-- the calls that change the state, in any order; a call that raises is rolled back, but for a
-- `delivery`, whose offered row stays.
--
-- SHA-256, AES-GCM, JSON parsing and the database's own failures are not modelled: all but the last
-- are parameters, those of the continuation ledger in the record `Codec`. The HTTP server, the
-- launcher, files and the user interfaces are pure input and output. The rest of the continuation
-- host, the response assembly, the classification of upstream errors, the receipts of a usage record,
-- the translation of requests and the broker are not modelled either.
pub mod Common
pub mod Wire
pub mod Journal
pub mod Approvals
pub mod Leases
pub mod Usage
pub mod Ledger
pub mod Host
pub mod Accounting
pub mod Budget
