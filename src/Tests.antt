-- ===== src/Tests.antt =====
-- Runs of the program's parts on concrete inputs.
mod Samples
mod Payments
mod Approvals
mod Callbacks
mod Queries
mod System
mod Daraja
mod Tools
mod Auth
