-- ===== src/Logging.antt =====
-- internal/logging/logging.go: which logger New makes, and the package's default logger. What a
-- logger writes is log/slog's; a logger is its settings and the fields that it adds.
use go_tunnel.Base.{
  Bytes, bytes, Bool, Option, none, some, List, [], ◌∷◌, ◌++◌, ◌||◌, bytes_eq, ◌==◌, if◌then◌else◌,
}
use go_tunnel.Base.Result.{Result, ok, err}
use go_tunnel.Host.{Unicode, to_lower}

pub data Level : Type 0 where
  debug info warn error : Level

pub data Format : Type 0 where
  json text : Format

pub data Output : Type 0 where
  stdout : Output
  appended : Bytes → Output

-- `fields` are those of WithComponent and WithFields, in order.
pub record Logger : Type 0 where
  pub level : Level
  pub format : Format
  pub output : Output
  pub fields : List (Bytes × Bytes)

pub data LogError : Type 0 where
  unsupported_level unsupported_format : Bytes → LogError
  open_file : LogError

-- The text is compared in small letters.
unfoldable pub parse_level : Unicode → Bytes → Option Level
parse_level unicode s =
    let l = to_lower unicode s in
    if l == bytes "debug"
    then some debug
    else if l == bytes "info" || l == []
    then some info
    else if l == bytes "warn" || l == bytes "warning"
    then some warn
    else if l == bytes "error"
    then some error
    else none

unfoldable pub parse_format : Unicode → Bytes → Option Format
parse_format unicode s =
    let f = to_lower unicode s in
    if f == bytes "json" || f == []
    then some json
    else if f == bytes "text"
    then some text
    else none

-- The writer: stdout, or a file that must open.
unfoldable pub open_output : (Bytes → Bool) → Bytes → Option Output
open_output opens file =
    if file == [] then some stdout else if opens file then some (appended file) else none

-- From the level and the writer on; the format is looked at once the file is open.
unfoldable pub make_logger : Unicode → Level → Bytes → Option Output → Result LogError Logger
make_logger unicode level format none = err open_file
make_logger unicode level format (some output) = elim (parse_format unicode format) [
  | none ↦ err (unsupported_format format)
  | some f ↦ ok (record { level = level; format = f; output = output; fields = [] })
]

-- `opens` tells which files can be opened.
unfoldable pub new_logger :
    Unicode → (Bytes → Bool) → Bytes → Bytes → Bytes → Result LogError Logger
unfolding parse_level open_output make_logger
new_logger unicode opens level format file = elim (parse_level unicode level) [
  | none ↦ err (unsupported_level level)
  | some l ↦ make_logger unicode l format (open_output opens file)
]

unfoldable pub with_fields : Logger → List (Bytes × Bytes) → Logger
with_fields l fields = record l { fields = l.fields ++ fields }

unfoldable pub with_component : Logger → Bytes → Logger
with_component l component = record l { fields = l.fields ++ (bytes "component", component) ∷ [] }

abbrev set_default : Option Logger → Result LogError Logger → Option Logger × Option LogError
set_default old (ok l) = (some l, none)
set_default old (err e) = (old, some e)

-- Init, on the package's default logger.
unfoldable pub init :
    Unicode
    → (Bytes → Bool)
    → Option Logger
    → Bytes
    → Bytes
    → Bytes
    → Option Logger × Option LogError
init unicode opens old level format file =
    set_default old (new_logger unicode opens level format file)

abbrev plain : Logger
plain = record { level = info; format = json; output = stdout; fields = [] }

-- Default: the logger, and the package's default logger behind the call.
unfoldable pub default_logger : Option Logger → Logger × Option Logger
default_logger none = (plain, some plain)
default_logger (some l) = (l, some l)
