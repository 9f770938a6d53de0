-- ===== src/Web.antt =====
-- apps/web: the parts of the front end that decide and remember, without its rendering.
pub mod Runs
pub mod Texts
pub mod Network
pub mod States
pub mod Wallet
pub mod Transaction
pub mod Polling
pub mod Reads
pub mod Client
pub mod RoundStatus
pub mod RoundExamples
pub mod Pool
pub mod ProviderSlas
pub mod History
pub mod TransactionExamples
pub mod Examples
pub mod PollingExamples
pub mod PoolExamples
pub mod HistoryExamples
pub mod Format
pub mod FormatExamples
pub mod Form
pub mod FormExamples
