-- ===== src/Io.antt =====
-- Descriptor I/O: the helpers of TLPI/sockets that hide partial transfers, interrupted calls and
-- the block structure of the input from their callers.
pub mod Posix
pub mod Rdwrn
pub mod Line
mod Tests
