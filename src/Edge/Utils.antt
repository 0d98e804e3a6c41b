-- ===== src/Edge/Utils.antt =====
-- edge/utils/utils.go: the settings of an edge node, and helpers. A text is the list of its code points.
pub mod Text
pub mod Config
pub mod Numbers
pub mod Report
pub mod Network
mod Tests
