-- ===== src/TokenStub/Handler.antt =====
-- `newHandler` and `writeJSON` of cmd/gcp-token-stub/main.go. `http.ServeMux` of Go's library sends a
-- request whose path it would write otherwise to the cleaned path, except for the method CONNECT; the
-- cleaning is a parameter. A body stands for its JSON.
use gcp_emulator_provisioner.Prelude.{ℕ, not, ◌&&◌, Text, codes, ◌==◌, if◌then◌else◌}
use gcp_emulator_provisioner.Prelude.Int.{ℤ}

pub record TokenResponse : Type 0 where
  pub access_token : Text
  pub token_type : Text
  pub expires_in : ℤ

pub data Body : Type 0 where
  token_body : TokenResponse → Body
  -- a map from "error" to a text
  error_body : Text → Body

pub record Request : Type 0 where
  pub method : Text
  pub path : Text

pub data Reply : Type 0 where
  -- the status, the content type and the body
  written : ℕ → Text → Body → Reply
  -- a redirection to another path
  moved : Text → Reply

unfoldable pub write_json : ℕ → Body → Reply
write_json status body = written status (codes "application/json") body

unfoldable pub handle_token : Text → ℤ → Request → Reply
handle_token token expires_in r =
    if not (r.method == codes "POST") && not (r.method == codes "GET")
    then write_json 405 (error_body (codes "invalid_request"))
    else write_json 200 (
        token_body
          (record { access_token = token; token_type = codes "Bearer"; expires_in = expires_in }))

unfoldable pub handle_other : Request → Reply
handle_other r = write_json 404 (error_body (codes "not_found"))

-- The mux with the patterns "/token" and "/"
unfoldable pub new_handler : (Text → Text) → Text → ℤ → Request → Reply
new_handler clean token expires_in r =
    if not (r.method == codes "CONNECT") && not (clean r.path == r.path)
    then moved (clean r.path)
    else if r.path == codes "/token"
    then handle_token token expires_in r
    else handle_other r
