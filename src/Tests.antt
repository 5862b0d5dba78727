-- ===== src/Tests.antt =====
-- Runs of the model at concrete inputs, with small streams, keys and signatures in place of the
-- libraries'.
mod World
mod Protocol
mod Messages
mod Clients
mod Network
mod Tasks
mod Runs
mod Programs
mod Events
mod Replicas
mod Serving
mod Waiting
