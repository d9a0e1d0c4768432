-- ===== src/Hash.antt =====
-- The RandomX hash of src/algo/randomx: the AES passes over the scratchpad (aes_hash.cpp), the
-- interpreted machine (vm_interpreted.cpp) and the interface of randomx.cpp.
pub mod Vectors
pub mod Aes
pub mod Machine
pub mod Run
pub mod Calculate
pub mod Dataset
pub mod Total
pub mod Mining
