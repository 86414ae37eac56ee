-- ===== src/Telemetry/Resources/Canonical.antt =====
-- src/oauthclientbridge/telemetry/_resources.py: what of a resource a log line repeats.
use oauthclientbridge.Base.{◌≡◌, refl, [], ◌∷◌, String, Option, none, some}
use oauthclientbridge.Base.Dict.{put, keep}
use oauthclientbridge.Base.Json.{Object, str, num}
use oauthclientbridge.Settings.{TelemetrySettings}
use oauthclientbridge.Telemetry.Resources.{
  Process, filled, put_some, service_instance_id, resource_attributes, log_attributes,
}

module _ (p : Process) (s : TelemetrySettings) where
  -- A log line repeats every attribute of the resource: the filter of the log removes none of them.
  pub log_attributes-resource_attributes :
      log_attributes (resource_attributes p s) ≡ resource_attributes p s
  unfolding log_attributes resource_attributes put keep
  log_attributes-resource_attributes =
      go (filled (some (service_instance_id p s))) (filled s.oauth_provider) (filled s.vcs_revision)
    where
      attributes : Option String → Option String → Option String → Object
      attributes id provider revision = put_some "vcs.revision" revision (
          put_some "oauth.provider" provider (
            put_some "service.instance.id" id (
              ("service.name", str s.service_name)
              ∷ ("service.namespace", str s.service_namespace)
              ∷ ("service.version", str s.service_version)
              ∷ ("deployment.environment", str s.deployment_environment)
              ∷ ("process.pid", num p.pid)
              ∷ [])))

      go :
          (id provider revision : Option String)
          → log_attributes (attributes id provider revision) ≡ attributes id provider revision
      go none none none = refl
      go none none (some _) = refl
      go none (some _) none = refl
      go none (some _) (some _) = refl
      go (some _) none none = refl
      go (some _) none (some _) = refl
      go (some _) (some _) none = refl
      go (some _) (some _) (some _) = refl
