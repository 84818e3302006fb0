-- ===== src/Integrations.antt =====
-- src/integrations: the adapters to Google and to the object storage.
pub mod GoogleOauth
