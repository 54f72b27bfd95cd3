-- ===== src/Symbols.antt =====
-- internal/symbols: recovery of kernel layout and kernel globals from raw bytes.
pub mod Kdbg
pub mod Decode
pub mod Globals
pub mod Fingerprint
pub mod Pool
pub mod Sweep
pub mod OffsetStore
pub mod ProcParams
pub mod PeImage
pub mod Sid
pub mod Accessors
