-- ===== src/Tests.antt =====
-- Runs of the models at concrete inputs, and the theorems at inputs that meet their hypotheses.
mod Buffers
mod Frames
mod Tables
mod Forwarding
mod Messages
mod Commands
mod Receiving
mod Memory
mod Routing
mod Storing
mod Serving
