-- ===== src/Tls.antt =====
-- lib/crypt/clientHello.go: the first message of a TLS client. Slices has the reads of bytes and
-- slices, Extensions the cases of the switch, Hello the message. Reads and Given have the lemmas on
-- reads, Cases and Bounds the ranges of the reads.
pub mod Slices
pub mod Extensions
pub mod Hello
mod Reads
mod Given
mod Cases
mod Bounds
mod Tests
