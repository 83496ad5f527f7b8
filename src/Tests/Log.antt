-- ===== src/Tests/Log.antt =====
-- Names of levels on which the start of the program is run.
use Prim.Native.String.{String}
use dotproxy.Log.{Level, debug, info, warn, error}

abbrev pub level_name : Level → String
level_name debug = "DEBUG"
level_name info = "INFO"
level_name warn = "WARN"
level_name error = "ERROR"
