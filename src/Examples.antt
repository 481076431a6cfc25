-- ===== src/Examples.antt =====
-- Concrete runs of the models, and the theorems at concrete states.
mod Data
mod Threads
mod Exits
mod Locks
mod Runs
mod Readers
mod Blocks
mod Interrupts
mod Start
mod Memory
mod Boot
