-- ===== src/Callbacks.antt =====
-- app/callbacks: the callbacks of the payment provider.
pub mod Results
pub mod Payload
pub mod Handler
pub mod Replay
pub mod SourceVerifier
pub mod Routes
