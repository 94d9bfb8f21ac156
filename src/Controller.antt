-- ===== src/Controller.antt =====
-- controller/src
pub mod Games
pub mod Ports
pub mod Names
pub mod Assign
pub mod Podman
pub mod Routes
pub mod Schedule
pub mod Backup
mod Tests
