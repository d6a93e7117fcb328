-- ===== src/Protocol.antt =====
-- The Go package protocol: topics, the wire format's fixed header, integers and strings.
pub mod Topic
pub mod Spec
pub mod Codec
