-- ===== src/External.antt =====
-- What the program takes from elsewhere: floating-point arithmetic, tokio's semaphore and the
-- concurrent map, each as a record of its operations with the documented laws that are used.
pub mod Float
pub mod Semaphore
pub mod ServiceMap
pub mod Toposort
