-- ===== src/Temporal.antt =====
-- src/joiny_mnemonic/temporal.py: the temporal logic core.
-- An aware datetime is the instant that it denotes, in microseconds since `datetime.min` (UTC).
mod Tests
pub mod Kleene
pub mod Envelopes
pub mod Intervals
pub mod Denote
pub mod Validity
