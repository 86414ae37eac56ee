-- ===== src/Views.antt =====
-- src/oauthclientbridge/views.py: the handlers of the routes, one to a child module.
pub mod Page
pub mod Authorize
pub mod Callback
pub mod Token
pub mod Metrics
pub mod Flow
