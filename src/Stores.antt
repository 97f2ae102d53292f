-- ===== src/Stores.antt =====
-- The package internal/stores: unions and forks of stores, and the cache over a store.
pub mod Getters
pub mod Contents
pub mod Cache
pub mod Cached
