-- ===== src/Storage.antt =====
-- server/internal/storage: the provider of local files, and where a path of a request may lead.
pub mod Local
