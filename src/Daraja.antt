-- ===== src/Daraja.antt =====
-- app/daraja/client.py
pub mod Credentials
pub mod CircuitBreaker
pub mod Calls
pub mod Retries
pub mod Client
