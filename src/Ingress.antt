-- ===== src/Ingress.antt =====
-- src/relay/ingress.rs: the allowances that outlive a connection, and the gate that charges them. A
-- time is a number of nanoseconds, an address its number; `lowercase` is `str::to_lowercase`.
pub mod Ledger
pub mod Gate
pub mod Refusal
mod Examples
