-- ===== src/Logging.antt =====
-- The levels of the log, which cmd/gcp-emulator-provisioner/main.go and cmd/gcp-token-stub/main.go
-- read from the environment.
use gcp_emulator_provisioner.Prelude.{Text, codes, ◌==◌, if◌then◌else◌}

pub data Level : Type 0 where
  level_debug level_info level_warn level_error : Level

-- The switch of `setupLogging`
unfoldable pub level_of : Text → Level
level_of name =
    if name == codes "debug"
    then level_debug
    else if name == codes "warn"
    then level_warn
    else if name == codes "error"
    then level_error
    else level_info
