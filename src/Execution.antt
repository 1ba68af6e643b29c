-- ===== src/Execution.antt =====
-- app/services/execution_service.py: `ExecutionService`. `Common` has its helpers, `Checks` and
-- `Orders` the steps of `process_signal`, `Pipeline` that method, and `Recovery` the reconciliation.
-- `Idle`, `Quiet`, `Trail`, `Transactions` and `Responsive` follow the steps, `Accounts` and
-- `Connecting` are about the account key and the connection, `Results`, `Limits` and
-- `Passing` about the steps that a run has behind it, `Outcomes` and `Reconciled` about whole runs,
-- and `Interleaved` about runs with submissions in between.
pub mod Common
pub mod Accounts
pub mod Admission
pub mod Connecting
pub mod Results
pub mod Limits
pub mod Passing
pub mod Interleaved
pub mod Checks
pub mod Orders
pub mod Pipeline
pub mod Recovery
pub mod Quiet
pub mod Idle
pub mod Transactions
pub mod Responsive
pub mod Reconciled
pub mod Trail
pub mod Outcomes
