-- ===== src/Sha256/Reference.antt =====
-- SHA-256 as FIPS 180-4 states it: pad the message, cut it into blocks, and compress them in order.
mod Blocks
mod Absorb
mod Fill
mod Final
mod Digest
pub use Blocks.{reference_sha256, pad, be64, compress}
pub use Digest.{reference_sha256-IsBytes, length-reference_sha256}
pub use Final.{sha256-eq-reference}
