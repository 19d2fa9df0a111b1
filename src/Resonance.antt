-- ===== src/Resonance.antt =====
-- libs/resonance/src: the audio graph and two of its nodes.
pub mod Graph
pub mod Audio
pub mod Nodes
pub mod Tests
