-- ===== src/Sdk.antt =====
-- packages/sdk/src: the checks on inputs, the endpoint commitment, the quorum, the decoded results of
-- contract reads, and the arguments of the contract calls. Transactions are the Stellar SDK's.
pub mod Validate
pub mod Hash
pub mod Quorum
pub mod Vault
pub mod Registry
pub mod Examples
