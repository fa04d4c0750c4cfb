-- ===== src/Uri.antt =====
-- common/Uri.cpp and Uri.h. A text is a `String` that is walked by its characters; the code's
-- `std::string` holds the same characters as bytes, and every character that it looks for is ASCII.
pub mod Lan
pub mod Types
pub mod Parse
pub mod RoundTrip
mod Examples
