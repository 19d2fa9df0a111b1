-- ===== src/Kernel.antt =====
-- The kernel, unaos/crates/kernel/src: the parts that compute and do not touch the machine.
pub mod Xhci
pub mod Events
pub mod Frames
pub mod Pci
pub mod Tests
