-- ===== src/Http.antt =====
-- src/mnhttp.c: the parser of HTTP messages. Positions in the stream's buffer are offsets, numbers
-- of type `int` wrap by `int32`. The stream is an object of the library mncommon, which is the
-- parameter `Bytestream`; the user's callbacks are functions.
pub mod Scan
pub mod Scanned
pub mod Ctx
pub mod Strtol
pub mod Body
pub mod Plain
pub mod Line
pub mod Message
pub mod Order
pub mod Release
pub mod Method
pub mod Memory
pub mod Field
pub mod Parsed
pub mod Headers
mod Tests
