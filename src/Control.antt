-- ===== src/Control.antt =====
-- The Control engine (engines/control): policy compilation, the policy epoch and the kill switch.
pub mod Policy
pub mod Epoch
pub mod Canvas
pub mod Graph
pub mod Store
pub mod Layers
pub mod Flow
pub mod Deploy
