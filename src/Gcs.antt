-- ===== src/Gcs.antt =====
-- The Google Cloud Storage client (asyncio_gateway/logic/gcs_client.py).
pub mod Leases
pub mod Failures
pub mod Calls
pub mod Downloads
pub mod Attempts
pub mod Requests
