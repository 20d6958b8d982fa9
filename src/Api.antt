-- ===== src/Api.antt =====
-- api/: the three versions of the custom resource, their webhooks and conversions.
pub mod Meta
pub mod V1alpha1
pub mod V1beta1
pub mod V1
