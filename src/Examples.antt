-- ===== src/Examples.antt =====
-- The theorems at concrete databases, and runs of the handlers.
mod Sessions
mod Access
mod SignIn
mod Codes
mod Tenancy
mod Surroundings
mod History
