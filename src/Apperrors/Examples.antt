-- ===== src/Apperrors/Examples.antt =====
-- The theorem about error chains at an error of a remote server, as remoteError makes it.
use opendeploy.Common.{◌≡◌, some, [], ◌∷◌}
use opendeploy.Apperrors.Defs.{
  agent_unavailable, AppError, plain, new_error, with_context, internal, envelope, write_http,
}
use opendeploy.Apperrors.Chain.{layers, raised, write_http-layers}

abbrev offline : AppError
offline =
    with_context
      (record (new_error 503 agent_unavailable "agent is unavailable") {
        details = "Agent a1 has no active Control Plane session for files.";
        advice = "Check the Agent service logs, TCP port 5889, and server diagnostics, then retry.";
      })
      (("server_id", "a1") ∷ [])

write_http-layers_example :
    write_http (
      layers ("http" ∷ []) (
        internal "create site"
          (layers ("repo" ∷ "tx" ∷ []) (raised offline (some (plain "agent offline"))))))
    ≡ envelope offline
write_http-layers_example =
    write_http-layers ("http" ∷ []) ("repo" ∷ "tx" ∷ []) "create site" offline
      (some (plain "agent offline"))
