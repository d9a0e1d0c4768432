-- ===== src/Job.antt =====
-- `RxJob` of src/algo/randomx/rx_job.h and rx_job.cpp: the current job, its nonce ranges, and the
-- calls that the JavaScript layer makes.
mod State
pub mod Target
pub mod Ranges
pub mod Send
pub mod Threads
pub mod Control
pub mod Hasher
pub mod Worker
pub use State.*
