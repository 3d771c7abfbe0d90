-- ===== src/Transport.antt =====
-- components/transport: the keys under which topics, services and nodes are published.
pub mod KeyBuilder
pub mod Keys
