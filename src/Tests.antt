-- ===== src/Tests.antt =====
-- Small instances of the runtime, and runs of the code on concrete inputs.
mod Runtime
mod Encoding
mod Alarms
mod Services
mod Monitor
mod Viewport
mod Sources
mod Details
mod Filters
