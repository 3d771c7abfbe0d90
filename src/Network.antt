-- ===== src/Network.antt =====
-- components/network: the sockets behind URIs.
pub mod Uri
pub mod UriLaws
