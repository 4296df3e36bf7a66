-- ===== src/Discovery/Resolved.antt =====
-- The configuration after the discovery of its networks.
use oci_openshift_autoscalin.Base.{String, Bool, ◌≡◌, ap, ◌∙◌, arith, ok}
use oci_openshift_autoscalin.Api.{Autoscaler}
use oci_openshift_autoscalin.Exec.{return}
use oci_openshift_autoscalin.Exec.Stops.{lift-ok, bind-ok, return-ok}
use oci_openshift_autoscalin.Run.{Run, Env}
use oci_openshift_autoscalin.Config.{Config, resolve_config, override}
use oci_openshift_autoscalin.Discovery.{set_autoscaling_config}

resolve_config-override :
    (matches : String → Bool) (a : Autoscaler) (config resolved : Config)
    → resolve_config matches a config ≡ ok resolved
    → resolved ≡ override a config
unfolding resolve_config
resolve_config-override matches a config resolved h = ground (arith, h)

module _ (env : Env) (matches : String → Bool) where
  -- When the configuration is completed without an error, what comes back is the operator's
  -- configuration with the overrides of the custom resource and nothing more: its networks are
  -- those that were given, also where they were empty.
  pub set_autoscaling_config-override :
      (a : Autoscaler) (config found : Config) (r : Run)
      → (set_autoscaling_config env matches a config r).0 ≡ ok found
      → (found ≡ override a config) × (found.network ≡ config.network)
  unfolding set_autoscaling_config override
  set_autoscaling_config-override a config found r h =
      let (resolved, x, y) = lift-ok (resolve_config matches a config) _ r found h in
      let (_, _, z) = bind-ok _ (λ _. return resolved) r found y in
      let e = return-ok resolved found _ z ∙ resolve_config-override matches a config resolved x in
      (e, ap (λ c. c.network) e)
