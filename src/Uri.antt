-- ===== src/Uri.antt =====
-- src/mnhttp.c: `mnhttp_uri_init` and `mnhttp_uri_parse`. Pointers into the text are offsets, a
-- text is the bytes of a C string before its NUL. Objects of type `mnbytes_t` come from the
-- library mncommon, which is the parameter `MnBytes`. A failed `assert` is `none`.
-- Counts of references are in Release alone.
pub mod Defs
pub mod Cut
pub mod Release
mod Text
mod Authority
mod Query
pub mod Rebuild
pub mod Default
mod Tests
