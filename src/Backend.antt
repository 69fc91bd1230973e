-- ===== src/Backend.antt =====
-- blconfd/blconf-backend.c
pub mod Error
pub mod Names
pub mod Dispatch
