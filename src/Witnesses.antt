-- ===== src/Witnesses.antt =====
-- The headline theorems at concrete inputs, and runs of the models, by component.
mod Service
mod Guarded
mod Streaming
mod Startup
mod Stored
mod Limits
mod Upstream
mod Circuit
mod Selection
mod Vendors
mod Repeated
mod Running
