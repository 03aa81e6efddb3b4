-- ===== src/Resolver.antt =====
-- The two resolvers, which learn where a login is to be found: from datagrams and from the DHT.
pub mod Book
pub mod Metadata
pub mod Dht
pub mod Keyed
