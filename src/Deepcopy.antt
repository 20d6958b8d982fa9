-- ===== src/Deepcopy.antt =====
-- The generated deep copies of the three versions of the resource.
pub mod Heap
pub mod Copies
pub mod References
pub mod Entries
pub mod Isolated
pub mod V1alpha1
pub mod V1beta1
pub mod V1
