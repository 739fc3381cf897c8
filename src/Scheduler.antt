-- ===== src/Scheduler.antt =====
-- src/scheduler: the shared pool of chunks and the transport workers that drain it.
pub mod Pool
pub mod WorkerState
pub mod Worker
