-- ===== src/Server/Docs.antt =====
-- internal/handler/docs.go: the pages of the documentation. The specification that the build embeds
-- is a parameter; a body counts by its bytes.
use Prim.Native.String.{len}
use inferencia.Common.{String, none, List, [], ◌∷◌, join_text}
use inferencia.Middleware.Observation.{body}
use inferencia.Middleware.Stack.{Exchange}

-- A page that a client may keep for an hour.
abbrev cached : String → String → Exchange
cached content_type content = record {
  headers = ("Content-Type", content_type) ∷ ("Cache-Control", "public, max-age=3600") ∷ [];
  events = body (len content) ∷ [];
  panic = none;
}

unfoldable pub open_api : String → Exchange
open_api spec = cached "application/x-yaml" spec

-- Lines, with a newline between each and the next.
abbrev join_lines : List String → String
join_lines [] = ""
join_lines (l ∷ []) = l
join_lines (l ∷ ls) = join_text l (join_text "\n" (join_lines ls))

abbrev html_lines : List String
html_lines =
    "<!DOCTYPE html>" ∷ "<html lang=\"en\">" ∷ "<head>" ∷ "  <meta charset=\"UTF-8\">"
    ∷ "  <meta name=\"viewport\" content=\"width=device-width, initial-scale=1.0\">"
    ∷ "  <title>inferencia — API Reference</title>"
    ∷ "  <link rel=\"stylesheet\" href=\"https://unpkg.com/swagger-ui-dist@5.18.2/swagger-ui.css\">"
    ∷ "  <style>" ∷ "    body { margin: 0; background: #fafafa; }"
    ∷ "    .swagger-ui .topbar { display: none; }"
    ∷ "    .swagger-ui .info { margin: 30px 0 20px; }"
    ∷ "    .swagger-ui .info hgroup.main a { font-size: 0; }"
    ∷ "    .swagger-ui .info .title { font-family: -apple-system, BlinkMacSystemFont, \"Segoe UI\", Roboto, sans-serif; }"
    ∷ "    .swagger-ui .opblock .opblock-summary-operation-id { font-family: \"SF Mono\", \"Fira Code\", monospace; font-size: 12px; }"
    ∷ "  </style>" ∷ "</head>" ∷ "<body>" ∷ "  <div id=\"swagger-ui\"></div>"
    ∷ "  <script src=\"https://unpkg.com/swagger-ui-dist@5.18.2/swagger-ui-bundle.js\"></script>"
    ∷ "  <script src=\"https://unpkg.com/swagger-ui-dist@5.18.2/swagger-ui-standalone-preset.js\"></script>"
    ∷ "  <script>" ∷ "    window.onload = () => {" ∷ "      window.ui = SwaggerUIBundle({"
    ∷ "        url: \"/openapi.yaml\"," ∷ "        dom_id: \"#swagger-ui\","
    ∷ "        deepLinking: true," ∷ "        defaultModelsExpandDepth: 2,"
    ∷ "        defaultModelExpandDepth: 2," ∷ "        docExpansion: \"list\","
    ∷ "        filter: true," ∷ "        showExtensions: true,"
    ∷ "        showCommonExtensions: true," ∷ "        tryItOutEnabled: true,"
    ∷ "        requestSnippetsEnabled: true," ∷ "        persistAuthorization: true,"
    ∷ "        presets: [" ∷ "          SwaggerUIBundle.presets.apis,"
    ∷ "          SwaggerUIStandalonePreset" ∷ "        ]," ∷ "        plugins: ["
    ∷ "          SwaggerUIBundle.plugins.DownloadUrl" ∷ "        ],"
    ∷ "        layout: \"StandaloneLayout\"" ∷ "      });" ∷ "    };" ∷ "  </script>" ∷ "</body>"
    ∷ "</html>" ∷ []

unfoldable pub html : String
html = join_lines html_lines

unfoldable pub swagger_ui : Exchange
swagger_ui = cached "text/html; charset=utf-8" html
