-- ===== src/Scaling.antt =====
-- The objects of a node group (internal/components/enable_autoscaler/capi.go, secrets.go and
-- enable_autoscaler.go). The mutation of an object takes what the cluster has to what the operator
-- writes.
pub mod Rendered
pub mod Tags
pub mod References
pub mod Cluster
pub mod Machines
pub mod Deployment
pub mod Secrets
pub mod Parts
pub mod Targets
pub mod Linked
pub mod NodeGroup
pub mod Stable
pub mod Renewed
pub mod Repeated
