-- ===== src/Api/Monitoring.antt =====
-- src/constrail/kernel.py: the two handlers that show the metrics.
use constrails.Prelude.{String}
use constrails.Kernel.{Reading}
use constrails.Metrics.{Metrics, get_metrics_snapshot, render_prometheus_metrics}
use constrails.Api.{Response, ok, http_error, Headers, Server, World, authenticate_admin_request}

module _ (world : World) (rd : Reading) (headers : Headers) where
  unfoldable pub admin_metrics : Server → Response Metrics
  admin_metrics server = elim (authenticate_admin_request world.jwt rd.now headers server.auth) [
    | http_error status detail ↦ http_error status detail
    | ok p ↦ ok (get_metrics_snapshot server.auth.settings world.env.host rd.now server.kernel)
  ]

  unfoldable pub prometheus_metrics : Server → Response String
  prometheus_metrics server =
      elim (authenticate_admin_request world.jwt rd.now headers server.auth) [
        | http_error status detail ↦ http_error status detail
        | ok p ↦
            ok (render_prometheus_metrics server.auth.settings world.env.host rd.now server.kernel)
      ]
