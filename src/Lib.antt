-- ===== src/Lib.antt =====
-- FileTagSystem: the core of the server (Go, server/internal) that attaches tags to files, inherits
-- them through trees of values, decides who may do what, and searches by tag.
--
-- Parts and files:
-- - Prelude, Text, Result: lists, text as lists of characters, SQL's LIKE as SQLite reads it,
--   decimal numbers, errors. A text is valid UTF-8; `len` is its length in bytes.
-- - Models (models/models.go): actions, sets of actions, permissions.
-- - Db, Db.Cascade (db/migrations/0001_init.sql): the tables as lists of rows in the order of their
--   keys, the key of the next row, the deletes that ON DELETE CASCADE adds.
-- - Perm (perm/perm.go): `specificity`, `resolve_action` (resolveAction), `check`, `effective`.
--   Perm.Resolve (perm/resolve.go): `fetch_rows`, `resolve`, `resolve_effective`.
--   Perm.Admin (perm/admin.go): `grant`, `insert_permission`, `delete_permission`.
-- - Tags (tags/tags.go): field types, values with materialized paths, aliases. Tagging
--   (tags/tagging.go): `apply_tag` is applyTx; Tagging.Effective: EffectiveFields, AncestorPaths.
--   Tagging.Governance (tags/governance.go): Batch, MergeFieldValue, ValueUsage. Tags.Lists and
--   Catalog.Lists: the queries that return lists.
-- - Catalog (catalog/catalog.go): storages and the rows of files that are made when needed.
-- - Search (search/search.go): `search`, with `value_ids` and the pages by cursor. Search.Texts:
--   SearchValues, over Text.Like.Escaped, which is LIKE with ESCAPE.
-- - Auth.Limiter (auth/limiter.go) and Auth.Refresh (auth/refresh.go): the throttle, and the
--   rotation of refresh tokens. Auth.Accounts (auth/service.go): users, groups and memberships.
--   Auth.TwoFactor (auth/twofa.go): the second factor and the backup codes. Auth.Login
--   (auth/login.go): Login and CompleteTwoFA. Their children Rotation, Logout, Outcomes and
--   Lockout hold what is proved of them.
-- - Storage.Local (storage/local.go): `resolve_path` is resolve, with `list_dir` and `stat`.
-- - Audit (audit/audit.go): the log of sensitive operations.
-- - Api (api/middleware.go, api/respond.go): the state of the server, replies, and the guards of the
--   handlers. Its children have one function for each handler: Api.Files (handlers_files.go),
--   Api.Storages (handlers_storage.go), Api.Vocabulary (handlers_tags.go), Api.Batches
--   (handlers_governance.go), Api.Admin (handlers_admin.go), Api.Find (handlers_search.go),
--   Api.SignIn (handlers_auth.go), Api.Previews (preview.go, handlers_preview.go). Api.Calls is the
--   table of routes (server.go).
-- - Ingest (ingest/ingest.go) and Ingest.Jobs (ingest/jobs.go): the import of a scan and the jobs.
-- - Examples: runs of all of these on a small database.
-- All paths are below server/internal. A function of the source has its name here in snake case;
-- where a file says otherwise, the comment above the definition names the function.
--
-- How the parts interact: Tagging makes rows of files by Catalog, Search expands values by the paths
-- that Tags keeps, Perm.Resolve reads the paths of the files of Catalog, and all work on one `Db`.
-- An operation takes the database and returns an error, after which it is as it was, since every
-- transaction that fails is rolled back, or the new database. Ingest and Auth.Refresh commit before
-- some of their errors, so there a database goes with every result. A handler of Api takes the state
-- of the server and gives a reply with the state after it, the old one where it stops
-- early. The text of a query is read as code: a selection over the rows.
--
-- Bounds: numbers are natural numbers; keys, counts and times stay far below the 64 bits that they
-- have. The walk over permission rows runs on the number of rows as fuel, of which every round of
-- the loop takes one at least; the cascade over values runs as often as there are values, and each
-- round that changes something takes one at least. AncestorPaths and the search for an ancestor in
-- Storage.Local run on the length of the path, which every turn shortens. All other loops follow a
-- list.
--
-- Not modelled: OAuth, the listing of archives, how a thumbnail is made, ranges and headers of
-- the bytes of files, static files, the rate limiter of requests, the SQLite driver and its
-- errors of I/O, the scanner (Rust) and the web client (TypeScript). HTTP and JSON are seen as
-- the values that a handler reads and sends; numbers in a path are not negative. Cryptography,
-- random numbers, the clock and the file system are arguments. The starts of scans are numbers in
-- the order of time.
pub mod Prelude
pub mod Text
pub mod Models
pub mod Result
pub mod Db
pub mod Perm
pub mod Tags
pub mod Catalog
pub mod Tagging
pub mod Search
pub mod Auth
pub mod Audit
pub mod Storage
pub mod Api
pub mod Ingest
pub mod Examples
