-- ===== src/Vm.antt =====
-- platform-mvp/vm-binding-controller: hub VM requests become VMs on the region's spoke.
pub mod Domain
pub mod Adapter
pub mod Config
pub mod Controller
pub mod Main
pub mod Rendering
pub mod StatusController
