-- ===== src/Provider/Vm.antt =====
-- dcp-provider/internal/vm: the machines that a provider starts.
pub mod Firecracker
pub mod Container
