-- ===== src/Tests.antt =====
-- Concrete inputs for the theorems, and runs of the code on them.
mod Pools
mod Servers
mod Parts
mod Clients
mod Users
mod Blocks
mod ClientSide
mod Tunnels
mod Interfaces
mod Loops
mod Configs
mod Endings
