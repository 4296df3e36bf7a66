-- ===== src/Components/Mutation.antt =====
-- What a component's mutation makes of an object.
use oci_openshift_autoscalin.Base.{some, ◌≡◌, arith, ok, err, Result}
use oci_openshift_autoscalin.Base.Dict.{lookup}
use oci_openshift_autoscalin.Labels.{managed_by_label}
use oci_openshift_autoscalin.Labels.Owned.{set_component_labels-managed_by_label}
use oci_openshift_autoscalin.Objects.{Object, Subcomponent, Component}
use oci_openshift_autoscalin.Components.{mutation, label}

label-managed_by_label :
    (c : Component) (s : Subcomponent) (m : Result Object) (made : Object)
    → label c s m ≡ ok made
    → lookup managed_by_label made.labels ≡ some c.instance_name
label-managed_by_label c s (err e) made h = cc h
label-managed_by_label c s (ok o) made h =
    ground (arith, h, set_component_labels-managed_by_label c.instance_name c.name s.name o.labels)

-- Whatever a subcomponent's own mutation does, the object has the instance name of the component.
pub mutation-managed_by_label :
    (c : Component) (s : Subcomponent) (o made : Object)
    → mutation c s o ≡ ok made
    → lookup managed_by_label made.labels ≡ some c.instance_name
unfolding mutation
mutation-managed_by_label c s o made h = label-managed_by_label c s _ made h
