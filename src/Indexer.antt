-- ===== src/Indexer.antt =====
-- indexer/src: rows, ingestion, tables and the HTTP API.
pub mod Rows
pub mod Decode
pub mod Classify
pub mod Sql
pub mod Tables
pub mod Rpc
pub mod Ingest
pub mod Api
pub mod Examples
pub mod WorkerExamples
