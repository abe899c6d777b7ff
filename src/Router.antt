-- ===== src/Router.antt =====
-- internal/router: which targets a request may be attempted against, and in what order.
pub mod Types
mod Examples
pub mod Order
pub mod Names
pub mod Filter
pub mod Resolve
