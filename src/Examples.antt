-- ===== src/Examples.antt =====
-- The theorems at work on concrete inputs, and runs of the modelled code.
mod Leases
mod Rules
mod Moves
mod Calls
mod Deliveries
mod Turns
mod Workers
mod Sends
mod Facts
mod Duplicates
mod Routes
mod Ticks
mod Permits
mod Floods
