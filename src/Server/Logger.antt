-- ===== src/Server/Logger.antt =====
-- internal/logging/gcp.go, and `newLogger` of cmd/inferencia/main.go. The handlers of log/slog are
-- their options: the format and the least level; attributes are names with texts.
use inferencia.Common.{
  String, Bool, true, false, List, [], ◌∷◌, ◌++◌, ◌==◌, ◌&&◌, if◌then◌else◌, join_text, leb_ℤ, ℤ,
  pos, negsuc,
}
use inferencia.Config.{Log}

-- `slog.Level` is an integer with four named values.
abbrev pub level_debug : ℤ
level_debug = negsuc 3

abbrev pub level_info : ℤ
level_info = pos 0

abbrev pub level_warn : ℤ
level_warn = pos 4

abbrev pub level_error : ℤ
level_error = pos 8

pub data Format : Type 0 where
  text json : Format

-- A handler of log/slog, with attributes or a group added to it, or a `GCPHandler` around a handler.
pub data LogHandler : Type 0 where
  base : Format → ℤ → LogHandler
  bound : LogHandler → List (String × String) → LogHandler
  grouped : LogHandler → String → LogHandler
  gcp : LogHandler → Bool → LogHandler

pub record LogRecord : Type 0 where
  pub level : ℤ
  pub message : String
  pub attrs : List (String × String)

unfoldable pub enabled : LogHandler → ℤ → Bool
enabled (base format least) level = leb_ℤ least level
enabled (bound inner attrs) level = enabled inner level
enabled (grouped inner name) level = enabled inner level
enabled (gcp inner add_resource) level = enabled inner level

abbrev is_level : ℤ → ℤ → Bool
is_level a b = leb_ℤ a b && leb_ℤ b a

unfoldable pub severity_by_level : List (ℤ × String)
severity_by_level =
    (level_debug, "DEBUG")
    ∷ (level_info, "INFO")
    ∷ (level_warn, "WARNING")
    ∷ (level_error, "ERROR")
    ∷ []

-- A missing key reads as the empty text.
abbrev read_severity : ℤ → List (ℤ × String) → String
read_severity level [] = ""
read_severity level (e ∷ es) =
    let rest = read_severity level es in if is_level level e.0 then e.1 else rest

abbrev or_default : String → String
or_default sev = if sev == "" then "DEFAULT" else sev

abbrev resource : Bool → List (String × String)
resource true = ("resource", "{type: generic_task, labels: {service: inferencia}}") ∷ []
resource false = []

-- The attributes in a group, whose name stands before theirs.
abbrev in_group : String → List (String × String) → List (String × String)
in_group group [] = []
in_group group ((name, value) ∷ attrs) =
    (join_text group (join_text "." name), value) ∷ in_group group attrs

-- The record that the handler of log/slog writes.
unfoldable pub handle : LogHandler → LogRecord → LogRecord
unfolding severity_by_level
handle (base format least) r = r
handle (bound inner attrs) r = handle inner (record r { attrs = attrs ++ r.attrs })
handle (grouped inner group) r = handle inner (record r { attrs = in_group group r.attrs })
handle (gcp inner add_resource) r = handle inner (record r {
  attrs =
      r.attrs
      ++ (("severity", or_default (read_severity r.level severity_by_level))
          ∷ resource add_resource);
})

unfoldable pub with_attrs : LogHandler → List (String × String) → LogHandler
with_attrs (base format least) attrs = bound (base format least) attrs
with_attrs (bound inner before) attrs = bound (bound inner before) attrs
with_attrs (grouped inner group) attrs = bound (grouped inner group) attrs
with_attrs (gcp inner add_resource) attrs = gcp (with_attrs inner attrs) add_resource

unfoldable pub with_group : LogHandler → String → LogHandler
with_group (base format least) name = grouped (base format least) name
with_group (bound inner attrs) name = grouped (bound inner attrs) name
with_group (grouped inner group) name = grouped (grouped inner group) name
with_group (gcp inner add_resource) name = gcp (with_group inner name) add_resource

-- `logging.NewLogger`
abbrev clouded : String → LogHandler → LogHandler
clouded cloud_format h =
    if cloud_format == "gcp"
    then gcp h false
    else if cloud_format == "gcp_with_resource"
    then gcp h true
    else h

abbrev base_of : String → ℤ → LogHandler
base_of format level = if format == "text" then base text level else base json level

unfoldable pub new_cloud_logger : ℤ → String → String → LogHandler
new_cloud_logger level format cloud_format = clouded cloud_format (base_of format level)

abbrev level_named : String → ℤ
level_named name =
    if name == "debug"
    then level_debug
    else if name == "warn"
    then level_warn
    else if name == "error"
    then level_error
    else level_info

-- `newLogger`
unfoldable pub new_logger : Log → LogHandler
unfolding new_cloud_logger
new_logger cfg =
    if cfg.cloud_format == ""
    then base_of cfg.format (level_named cfg.level)
    else new_cloud_logger (level_named cfg.level) cfg.format cfg.cloud_format
