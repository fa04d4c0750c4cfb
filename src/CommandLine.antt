-- ===== src/CommandLine.antt =====
-- The command line of fts_url_copy: how the server builds it, and how the process reads it back.
pub mod Types
pub mod Command
pub mod Setters
pub mod Arguments
pub mod Table
pub mod Values
pub mod Options
pub mod Parse
pub mod Words
pub mod Known
pub mod ReadBack
pub mod Accepted
pub mod Good
pub mod Keeps
pub mod Metadata
pub mod Handled
pub mod MetadataBack
