-- ===== src/Tests.antt =====
-- Runs of the model at concrete inputs, and the theorems at inputs that meet their hypotheses.
mod Toy
mod Worlds
mod Brokers
mod Breakers
mod Submissions
mod Deliveries
mod Journeys
mod Requests
mod Pools
mod Arrivals
mod Services
mod Settings
