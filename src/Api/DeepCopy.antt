-- ===== src/Api/DeepCopy.antt =====
-- api/v1alpha1/zz_generated_deepcopy.go: the deep copies of the resources.
pub mod Structs
pub mod Stored
pub mod Endpoint
pub mod Template
pub mod Policy
pub mod Resource
