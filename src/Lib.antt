-- ===== src/Lib.antt =====
-- Aird is a file server with resumable uploads, an attribute-based access policy and peer-to-peer
-- transfers. This library models the parts whose logic decides what is stored, who may do what and
-- who meets whom. Paths are from the root of the repository.
--
-- Range: aird/core/http_range.py. ByteRange, merge_ranges, ranges_cover_file and the stored form
-- of ranges keep their names; Range/Header has parse_range_header and parse_content_range over
-- lists of code points. A header reaches them decoded by Latin-1. Range/Merge, Range/Canonical and
-- Range/Cover hold the theory of ranges as sets of bytes.
-- Upload: Upload/Table is the table of aird/db/ranged_uploads.py, a list of rows; Upload/File the
-- temporary file and the writes, whose fuel is the length of the data, enough since each round
-- stores at least one byte; Upload/Handlers the tests of a chunk and the commit under the
-- session's lock, with finalize_upload_to_disk of aird/handlers/file_op_handlers.py;
-- Upload/Requests what `post`, `put` and `get` of aird/handlers/ranged_upload_handlers.py decide
-- before they write; Upload/Streams the counts of running requests, also those of
-- aird/core/rate_limit.py. Upload/Flow puts requests together as a step relation: a chunk is
-- admitted, written and recorded in three steps with steps of other requests between them, or cut
-- off with a part of it written; the hourly cleaning of aird/main.py may remove a session at any
-- time. The recording, under the session's lock, is one step.
-- Policy: aird/services/policy_service.py and aird/db/policies.py. Policy/Value has the JSON
-- values and Python's equality on them, Policy/Condition the condition trees, and Policy/Decision
-- `evaluate` and its cache, and Policy/Store the table of aird/db/policies.py. An exception is an
-- outcome: PolicyEvaluationError is `malformed`, any other is `crashed`. The standard library's
-- `int`, `fromisoformat` and `ipaddress` are parameters.
-- P2p: aird/handlers/p2p_handlers.py and aird/services/p2p_service.py. A room object is found by
-- its token in a heap that keeps it after the manager has dropped it, since handlers keep it too.
-- P2p/Signaling has one function per message; P2p/Signaling/Rooms is the life of the server.
-- Files: aird/core/mmap_handler.py. Files/Chunks serves a file in chunks; a file is the list of its
-- bytes, the fuel of a loop is the number of bytes that are wanted, enough since each round but the
-- last reads at least one. Files/Lines finds the offsets of lines in both ways of reading; the fuel
-- is the length of the file.
-- Security: Security/Folder is the name of a user's folder, of aird/core/security.py, where the
-- digest is a parameter.
-- Shares: Shares/Creator is aird/core/share_root.py; Shares/Table the table of aird/db/shares.py,
-- a list of rows; Shares/Paths normal forms of paths as posixpath makes them, and the paths that
-- a static share covers; Shares/Access, Shares/Serve and Shares/Verify the access tests, the
-- pages and the verification of tokens of aird/handlers/share_handlers.py, Shares/Create and
-- Shares/Update its handlers that make, change and revoke shares, with Shares/Entries for the
-- paths of a request and Shares/Owner for the tests of aird/handlers/base_handler.py. World of
-- Shares/Serve has the clock, the disk, the match of one pattern and the paths of a tag as
-- parameters.
--
-- The parts work together as in the program: the upload handlers call the range functions and the
-- table, and the commit calls finalize_upload_to_disk; the policy engine stands on values and
-- conditions; the signalling handlers act on rooms; the pages of a share look it up
-- in the table and ask for its creator and its lists.
--
-- Numbers are natural: positions, sizes and times in ticks are never negative in the code; a
-- policy's priority and the numbers in conditions are integers. They have no upper bound, as in
-- Python. The database is the table it stores, with its errors left out except a repeated key,
-- and its JSON columns read back as the values that were written. `int` is taken without the
-- limit of 4300 digits. A destination of an upload that is a folder is left out. Locks make the
-- steps they guard indivisible. Not modelled: logging, the event bus, the reading of request
-- bodies into staging files, the token bucket of the rate limiter (floating-point arithmetic),
-- the page handlers, the search in files, users, and the clients.
mod Base
pub mod Range
pub mod Upload
pub mod Policy
pub mod P2p
pub mod Files
pub mod Security
pub mod Shares
