-- ===== src/Tests.antt =====
-- The theorems at concrete inputs: a control plane with one provider, a database that carries out
-- every statement, and the Redis of Store/Redis/Memory.antt.
mod Setting
mod Stores
mod Servers
mod Agents
mod Links
mod Starts
mod Turns
mod Beats
mod Runs
mod Hosts
mod Machines
