-- ===== src/Shares.antt =====
-- Shares: aird/db/shares.py, aird/core/share_root.py and the handlers of
-- aird/handlers/share_handlers.py that make, change, revoke and serve a share.
pub mod Creator
pub mod Table
pub mod Paths
pub mod Access
pub mod Serve
pub mod Owner
pub mod Entries
pub mod Update
pub mod Create
pub mod Verify
mod Examples
