-- ===== src/Tests.antt =====
-- Runs at fixed inputs, and each theorem at an input where its hypotheses hold.
mod Wires
mod Bars
mod Serving
mod Frames
mod Films
mod Showcases
mod Demos
mod Screens
mod Ptys
mod Stubs
mod Hosts
mod Clients
