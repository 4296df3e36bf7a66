-- ===== src/NodePool/Bound.antt =====
-- How long the names are that the operator generates for a node pool.
use oci_openshift_autoscalin.Base.{String}
use oci_openshift_autoscalin.Kube.{Kube}
