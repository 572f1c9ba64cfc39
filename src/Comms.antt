-- ===== src/Comms.antt =====
-- comms: connections between nodes.
pub mod Connection
pub mod Frame
