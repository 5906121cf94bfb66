-- ===== src/Nas.antt =====
-- internal/nas: what runs on, and what is read from, the NAS.
pub mod Patterns
pub mod Progress
pub mod Path
pub mod Lftp
pub mod Workspace
pub mod Output
pub mod Upload
pub mod Client
pub mod Destinations
pub mod Shell
pub mod Transfer
pub mod Sizes
