-- ===== src/TokenStub.antt =====
-- cmd/gcp-token-stub/main.go: the settings, the probe and the server's end. The handler stands in
-- TokenStub/Handler. Package http of Go's library is a parameter: what a client's `Get` answers,
-- what the `select` of `run` meets first and what `Shutdown` returns.
pub mod Handler
pub mod Laws
mod Tests
use gcp_emulator_provisioner.Prelude.{
  ℕ, ◌*◌, Bool, true, false, not, Option, none, some, List, [], ◌∷◌, ◌++◌, Text, codes, Result, ok,
  err, is_empty, has_prefix, nat_eq, if◌then◌else◌, ◌==◌,
}
use gcp_emulator_provisioner.Prelude.Int.{ℤ, pos, ltb_ℤ}
use gcp_emulator_provisioner.Config.GoTime.{second, atoi}
use gcp_emulator_provisioner.Client.Errors.{Error, wrap, shutting_down}
use gcp_emulator_provisioner.Logging.{Level, level_of}
use gcp_emulator_provisioner.TokenStub.Handler.{Request, Reply, new_handler}

abbrev pub default_addr : Text
default_addr = codes ":8099"

abbrev pub default_access_token : Text
default_access_token = codes "local-emulator-token"

abbrev pub default_expires_in : ℤ
default_expires_in = pos 3600

abbrev pub shutdown_grace : ℕ
shutdown_grace = 5 * second

abbrev pub read_header_timeout : ℕ
read_header_timeout = 10 * second

abbrev pub probe_timeout : ℕ
probe_timeout = 3 * second

pub record Flags : Type 0 where
  pub addr : Text
  pub token : Text
  pub ping : Bool
  pub show_version : Bool

pub record Settings : Type 0 where
  pub addr : Text
  pub token : Text
  pub expires_in : ℤ

unfoldable pub first_non_empty : List Text → Text
first_non_empty [] = []
first_non_empty (v ∷ values) = if not (is_empty v) then v else first_non_empty values

-- `strconv.Atoi` and its test; `none` is the exit with status 1.
unfoldable pub positive_seconds : Option ℤ → Option ℤ
positive_seconds none = none
positive_seconds (some n) = if ltb_ℤ (pos 0) n then some n else none

unfoldable pub resolve_expires_in : Text → Option ℤ
unfolding positive_seconds
resolve_expires_in [] = some default_expires_in
resolve_expires_in (c ∷ raw) = positive_seconds (atoi (c ∷ raw))

unfoldable pub with_expires_in : Text → Text → Option ℤ → Option Settings
with_expires_in addr token none = none
with_expires_in addr token (some n) = some (record { addr = addr; token = token; expires_in = n })

unfoldable pub resolve_settings : (Text → Text) → Flags → Option Settings
unfolding first_non_empty resolve_expires_in with_expires_in
resolve_settings getenv f =
    with_expires_in
      (first_non_empty (f.addr ∷ getenv (codes "TOKEN_STUB_ADDR") ∷ default_addr ∷ []))
      (first_non_empty
        (f.token ∷ getenv (codes "TOKEN_STUB_ACCESS_TOKEN") ∷ default_access_token ∷ []))
      (resolve_expires_in (getenv (codes "TOKEN_STUB_EXPIRES_IN")))

unfoldable pub setup_logging : (Text → Text) → Level
unfolding level_of
setup_logging getenv = level_of (getenv (codes "LOG_LEVEL"))

unfoldable pub probe_host : Text → Text
probe_host addr = if has_prefix addr (codes ":") then codes "127.0.0.1" ++ addr else addr

unfoldable pub probe_url : Text → Text
unfolding probe_host
probe_url addr = codes "http://" ++ (probe_host addr ++ codes "/token")

pub data ProbeError : Type 0 where
  get_failed : Error → ProbeError
  returned : ℕ → ProbeError

-- What the probe makes of the answer, a status or an error
unfoldable pub probe_answer : Result Error ℕ → Option ProbeError
probe_answer (err e) = some (get_failed e)
probe_answer (ok status) = if nat_eq status 200 then none else some (returned status)

-- How `ListenAndServe` ended: with `http.ErrServerClosed`, another error or none
pub data Served : Type 0 where
  server_closed serve_ended : Served
  serve_failed : Error → Served

-- What `select` met first: the end of the server, or a signal
pub data Selected : Type 0 where
  server_first : Served → Selected
  signal_first : Selected

-- What the goroutine sends on the channel
unfoldable pub sent_error : Served → Option Error
sent_error server_closed = none
sent_error serve_ended = none
sent_error (serve_failed e) = some e

-- The returns of `run`; the second argument is what `Shutdown` returned after a signal.
unfoldable pub run_answer : Selected → Option Error → Option Error
unfolding sent_error
run_answer (server_first served) stopped = sent_error served
run_answer signal_first none = none
run_answer signal_first (some e) = some (wrap shutting_down e)

-- The fields of `http.Server` that the code sets
pub record Server : Type 0 where
  pub addr : Text
  pub handler : Request → Reply
  pub read_header_timeout : ℕ

unfoldable pub new_server : (Text → Text) → Settings → Server
new_server clean s = record {
  addr = s.addr;
  handler = new_handler clean s.token s.expires_in;
  read_header_timeout = read_header_timeout;
}

module _ (clean : Text → Text) (select : Server → Selected)
    -- `Shutdown` within a time
    (shutdown : ℕ → Server → Option Error) where
  unfoldable pub run_stub : Settings → Option Error
  unfolding new_server run_answer
  run_stub s =
      let server = new_server clean s in run_answer (select server) (shutdown shutdown_grace server)

-- What the command prints, and its exit status
pub record Exit : Type 0 where
  pub printed : Text
  pub status : ℕ

abbrev pub exit : ℕ → Exit
exit n = record { printed = []; status = n }

unfoldable pub exit_on : {A : Type 0} → Option A → Exit
exit_on none = exit 0
exit_on (some e) = exit 1

module _ (version : Text) (getenv : Text → Text)
    -- `Get` of a client with a timeout, at an address
    (http_get : ℕ → Text → Result Error ℕ) (clean : Text → Text) (select : Server → Selected)
    (shutdown : ℕ → Server → Option Error) where
  unfoldable pub with_settings : Flags → Option Settings → Exit
  with_settings f none = exit 1
  with_settings f (some s) =
      if f.ping
      then exit_on (probe_answer (http_get probe_timeout (probe_url s.addr)))
      else exit_on (run_stub clean select shutdown s)

  unfoldable pub stub_main : Flags → Exit
  stub_main f =
      if f.show_version
      then record { printed = version; status = 0 }
      else with_settings f (resolve_settings getenv f)
