-- ===== src/Server/Tracing.antt =====
-- internal/observability/otel.go. The libraries of OpenTelemetry and the parser of URLs are parameters.
use inferencia.Common.{
  String, Option, none, some, List, [], ◌∷◌, ◌==◌, if◌then◌else◌, Result, ok, err, trim_space,
  join_text,
}

-- The options of the exporter.
pub data ExporterOption : Type 0 where
  with_endpoint_url : String → ExporterOption
  with_insecure : ExporterOption

unfoldable pub endpoint_of : String → String
endpoint_of endpoint =
    let trimmed = trim_space endpoint in if trimmed == "" then "http://localhost:4318" else trimmed

-- `scheme` gives the scheme of a URL, if it can be parsed.
abbrev insecure_of : Option String → List ExporterOption
insecure_of none = []
insecure_of (some s) = if s == "http" then with_insecure ∷ [] else []

unfoldable pub exporter_options : (String → Option String) → String → List ExporterOption
exporter_options scheme endpoint =
    let url = endpoint_of endpoint in with_endpoint_url url ∷ insecure_of (scheme url)

-- `E`, `R` and `P` are the exporters, resources and providers of the library, and `new_provider` makes
-- a provider that sends a batch every five seconds.
module _ {E R P : Type 0} (scheme : String → Option String)
    (new_exporter : List ExporterOption → Result String E)
    (merge_resource : String → Result String R) (new_provider : E → R → P) where
  abbrev described : E → Result String R → Result String P
  described exporter (err e) = err e
  described exporter (ok res) = ok (new_provider exporter res)

  abbrev exported : String → Result String E → Result String P
  exported service (err e) = err e
  exported service (ok exporter) = described exporter (merge_resource service)

  unfoldable pub new_tracer_provider : String → String → Result String P
  new_tracer_provider endpoint service_name =
      exported service_name (new_exporter (exporter_options scheme endpoint))

-- The method `Shutdown`: `none` is a nil receiver or one without a provider.
unfoldable pub shutdown : {P : Type 0} → (P → Option String) → Option P → Option String
shutdown stop none = none
shutdown stop (some provider) = stop provider

-- The name that `HTTPHandler` gives to the span of a request.
unfoldable pub span_name : String → String → String
span_name method path = join_text method (join_text " " path)
