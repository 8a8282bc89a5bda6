-- ===== src/Recorder.antt =====
-- The recorder (internal/recorder): the deterministic random streams that a run is replayed from.
pub mod ChaCha
pub mod Stream
pub mod Draw
