-- ===== src/Common.antt =====
-- src/common: permissions, request context, idempotency keys, the outbox, authentication, UUIDs
-- and the Problem Details of an error response; and Python's renderings that they use.
pub mod Render
pub mod Permissions
pub mod RequestContext
pub mod Idempotency
pub mod Http
pub mod Outbox
pub mod Authentication
pub mod Uuid7
pub mod Problem
pub mod Openapi
pub mod RequestId
pub mod Throttling
pub mod Health
