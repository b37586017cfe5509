-- ===== src/Tests.antt =====
-- Runs of the model at concrete data, and the theorems at inputs that meet their hypotheses.
mod Data
mod Sdks
mod Protocol
mod Listener
mod Native
mod Queues
mod Ipc
mod Threads
mod Objects
mod Receiver
mod Startup
mod Android
mod Concurrent
mod DownLoads
mod Pipes
