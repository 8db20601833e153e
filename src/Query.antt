-- ===== src/Query.antt =====
-- src/ha_backend/search_query.py: the boolean query language of the search: tokens, parser and the
-- terms of a parsed query.
pub mod Tokens
pub mod Syntax
pub mod Parser
pub mod Terms
pub mod Flatten
mod Parses
pub mod Ends
pub mod Text
