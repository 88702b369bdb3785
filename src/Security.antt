-- ===== src/Security.antt =====
-- Security: the folder names of users (aird/core/security.py).
pub mod Folder
mod Examples
