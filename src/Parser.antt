-- ===== src/Parser.antt =====
-- crates/ra_syntax/src/parser_impl.rs, the modules below it, and crates/ra_syntax/src/parser_api.rs:
-- the machinery between the grammar and the tree.
pub mod Input
pub mod Event
pub mod Sink
pub mod Impl
pub mod Api
pub mod Process
pub mod ParseWith
pub mod Steps
