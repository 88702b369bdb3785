-- ===== src/Files.antt =====
-- The reading of files: aird/core/mmap_handler.py. A file is its bytes.
pub mod Chunks
pub mod Lines
mod Examples
