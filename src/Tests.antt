-- ===== src/Tests.antt =====
-- Runs at concrete data, and the theorems at worlds where their hypotheses hold.
mod World
mod Quiet
mod Copies
mod Amqp
mod Broker
mod Phases
mod Routing
mod Choices
mod Node
mod Jobs
mod Tracking
