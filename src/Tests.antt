-- ===== src/Tests.antt =====
-- Runs of the theorems at concrete inputs.
mod Data
mod Bases
mod Registries
mod Retries
mod Readies
mod Clients
mod Deliveries
mod Boots
mod StartAlls
mod Strandeds
mod Shutdowns
mod StopAlls
mod Attempts
mod Examples
mod Lines
mod Cancelleds
mod Lifetimes
