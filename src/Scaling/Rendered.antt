-- ===== src/Scaling/Rendered.antt =====
-- How the mutations of the operator's objects end: the labels and the annotations that the object
-- has, reconciled, and a new payload. An error leaves the object that is in the cluster as it is.
use oci_openshift_autoscalin.Base.{String, [], Result, ok, err}
use oci_openshift_autoscalin.Base.Dict.{Dict}
use oci_openshift_autoscalin.Objects.{Object, Payload}

-- an object that the cluster does not have yet
abbrev pub new_object : String → String → String → Object
new_object kind namespace name = record {
  kind = kind;
  namespace = namespace;
  name = name;
  labels = [];
  annotations = [];
  payload = Payload.empty;
}

abbrev pub rendered :
    (Dict String → Dict String)
    → (Dict String → Dict String)
    → Result Payload
    → Object
    → Result Object
rendered label annotate (err e) o = err e
rendered label annotate (ok p) o =
    ok (record o { labels = label o.labels; annotations = annotate o.annotations; payload = p })

-- for an object whose annotations stay
abbrev pub as_they_are : Dict String → Dict String
as_they_are annotations = annotations
