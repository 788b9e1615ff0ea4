-- ===== src/Tests.antt =====
-- The theorems applied to concrete devices, entries and processes, and runs of the definitions.
mod Numbers
mod Devices
mod Memory
mod Kernel
mod Slots
mod Loading
mod Legal
mod Cpus
mod Simulation
