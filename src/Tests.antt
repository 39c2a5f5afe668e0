-- ===== src/Tests.antt =====
-- Runs of the models at concrete inputs, and the theorems at inputs that meet their hypotheses.
mod Wire
mod Reading
mod Transport
mod Requests
mod Quiet
mod Manager
mod Connection
mod Recovery
mod DataPlane
mod Readiness
mod Messaging
mod Pool
mod DataService
