-- ===== src/Upload.antt =====
-- Resumable uploads: aird/db/ranged_uploads.py (Table), the temporary file that the chunks are
-- written into (File), and the handlers of aird/handlers/ranged_upload_handlers.py (Handlers,
-- Flow).
pub mod Table
pub mod File
pub mod Handlers
pub mod Requests
pub mod Flow
pub mod Streams
mod Examples
