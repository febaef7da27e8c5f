-- ===== src/Api.antt =====
-- api/etok.dev/v1alpha1: the custom resources, with the fields of the Kubernetes types that the
-- program reads or writes. A nil map is the empty one, a nil slice the empty list.
pub mod Meta
pub mod Run
pub mod Workspace
