-- ===== src/Server.antt =====
-- The whole server: src/config/urls.py, the middleware around the views and the exception handler
-- behind them.
pub mod Routes
pub mod Views
pub mod Answers
pub mod Events
pub mod Safe
pub mod Histories
pub mod Problems
pub mod Access
pub mod Documentation
pub mod Conformance
pub mod Meets
pub mod Endpoints
pub mod Shapes
pub mod Traces
