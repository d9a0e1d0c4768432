-- ===== src/Dataset.antt =====
-- The dataset: superscalar programs (superscalar.cpp), the cache's programs and the items computed
-- from them (dataset.cpp), and the threads that fill it (rx_worker.cpp).
pub mod Superscalar
pub mod Cache
pub mod Item
pub mod Split
pub mod Schedule
pub mod Generator
pub mod Init
pub mod Program
