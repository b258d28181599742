-- ===== src/Writer.antt =====
-- src/mnhttp.c: the functions that print messages to a bytestream of mncommon, and the query terms
-- of a URI. Sizes are those of objects in memory, so sums of them do not wrap. An argument that the
-- code asserts not to be NULL is a string, not an option.
pub mod Output
pub mod Message
pub mod Uri
pub mod Printed
pub mod Query
pub mod RoundTrip
mod Terms
pub mod Plain
mod Tests
mod Runs
