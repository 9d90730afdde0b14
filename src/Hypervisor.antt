-- ===== src/Hypervisor.antt =====
-- crates/hypervisor: the wire format of the calls to libvirt.
pub mod Xdr
mod Tests
