-- ===== src/Tests.antt =====
-- Runs of the definitions at concrete inputs, and the theorems at inputs that meet their hypotheses.
mod Errors
mod Breaker
mod Settings
mod Registry
mod Redirects
mod Gateway
mod Transfers
mod JsonRpc
mod Protocols
mod Paths
mod Redaction
mod Filters
mod Gcs
mod Http
mod Graphql
mod Soap
mod Sftp
mod Ftp
