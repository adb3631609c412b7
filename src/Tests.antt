-- ===== src/Tests.antt =====
-- Runs of the modelled code at concrete inputs, a module for each part.
mod Wire
mod Advertise
mod Server
mod Schedule
mod Hosts
mod Commands
mod Links
mod Pipes
mod Chain
