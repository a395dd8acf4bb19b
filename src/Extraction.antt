-- ===== src/Extraction.antt =====
-- The extraction of candidates from events: the durable wakeups of its single worker (Lease) and the queue
-- of runs and attempts (Queue), the checks of evidence, commits and the backlog, in src/joiny_mnemonic/storage.py.
pub mod Lease
pub mod Queue
pub mod Evidence
pub mod Commit
pub mod Backlog
