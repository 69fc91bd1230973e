-- ===== src/Client.antt =====
-- libblconf, the client's side of blconf/.
pub mod Cache
pub mod Channel
pub mod Binding
pub mod Library
pub mod Query
