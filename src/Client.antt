-- ===== src/Client.antt =====
-- The pages of the frontend: frontend/features, and the toasts of frontend/components.
pub mod Requests
pub mod Runs
pub mod Function
pub mod Events
pub mod Upload
pub mod Server
pub mod Create
pub mod Hooks
pub mod Toasts
pub mod Paged
pub mod Paging
pub mod Frame
pub mod Queries
pub mod Lists
pub mod Inputs
mod Tests
