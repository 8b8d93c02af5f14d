-- ===== src/Http.antt =====
-- internal/httpapi and the HTTP part of internal/observability: the handlers of the API, what they
-- write, the admission of requests, and the routes.
pub mod Writer
pub mod Metrics
pub mod Collectors
pub mod Capture
pub mod Errors
pub mod Request
pub mod Handlers
pub mod Routes
pub mod Safety
pub mod Serving
pub mod Replies
pub mod Answers
pub mod Panics
pub mod Admission
pub mod Refusals
