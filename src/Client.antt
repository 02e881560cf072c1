-- ===== src/Client.antt =====
-- apps/web/lib/api/client.ts: requests of the web application to the gateway.
pub mod Fetch
pub mod FetchLaws
pub mod Examples
