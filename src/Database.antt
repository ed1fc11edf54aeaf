-- ===== src/Database.antt =====
-- framework/database: the dialects (grammar.go) and the query builder (builder.go).
pub mod Grammar
pub mod Ident
pub mod Builder
mod Examples
