-- ===== src/Url.antt =====
-- src/mnhttp.c, the percent coding of URLs: the table `charflags`, `http_urlencode_reserved` and
-- `http_urldecode`. Both functions work on memory: `malloc`'s block and the caller's own string are
-- lists of bytes that the loops write through indices. A C string is its bytes up to the NUL.
-- `unsigned int` indices of the encoder wrap at 2 ^ 32; the decoder's pointers do not wrap.
mod Table
pub mod Spec
mod Encode
mod Decode
mod InPlace
mod Written
pub mod RoundTrip
mod Tests
