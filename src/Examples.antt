-- ===== src/Examples.antt =====
-- Runs of the definitions on concrete inputs, and the theorems at such inputs.
mod Races
mod Halves
mod Transfers
mod Pools
mod Nets
mod Events
mod Sends
mod Chains
mod Ends
mod Splits
mod Closings
mod Accepts
mod Blocks
mod Executors
mod Expansions
mod Hangs
