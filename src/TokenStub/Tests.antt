-- ===== src/TokenStub/Tests.antt =====
-- The theorems on cmd/gcp-token-stub/main.go at concrete data.
use gcp_emulator_provisioner.Prelude.{
  ◌≡◌, refl, ◌↔◌, ◌⊎◌, inl, ℕ, zero, suc, ◌∷◌, Result, true, false, none, some, [], Text, codes, ok,
  is_empty, text_dec, has_prefix, if◌then◌else◌, ◌==◌,
}
use gcp_emulator_provisioner.Prelude.Int.{pos, ◌≤ℤ◌}
use gcp_emulator_provisioner.Client.Errors.{Error}
use gcp_emulator_provisioner.Config.GoTime.{atoi, decimal}
use gcp_emulator_provisioner.TokenStub.{
  Flags, Settings, default_addr, exit, first_non_empty, positive_seconds, resolve_expires_in,
  with_expires_in, resolve_settings, probe_url, probe_host, signal_first, stub_main,
}
use gcp_emulator_provisioner.TokenStub.Handler.{Request, new_handler}
use gcp_emulator_provisioner.TokenStub.Laws.{
  granted, status_of, token_path, bearer, new_handler-granted, resolve_settings-IsUsable,
  stub_main_ping,
}

abbrev no_flags : Flags
no_flags = record { addr = []; token = []; ping = true; show_version = false }

-- The environment of a stub whose tokens live a minute
abbrev minute_env : Text → Text
minute_env key = if key == codes "TOKEN_STUB_EXPIRES_IN" then codes "60" else []

abbrev minute_settings : Settings
minute_settings = record {
  addr = default_addr;
  token = codes "local-emulator-token";
  expires_in = pos 60;
}

minute_resolved : resolve_settings minute_env no_flags ≡ some minute_settings
unfolding resolve_settings first_non_empty resolve_expires_in positive_seconds with_expires_in atoi
    decimal text_dec
minute_resolved = refl

default_url : probe_url default_addr ≡ codes "http://127.0.0.1:8099/token"
unfolding probe_url probe_host has_prefix
default_url = refl

abbrev post : Request
post = record { method = codes "POST"; path = codes "/token" }

new_handler-granted_example :
    (granted (new_handler (λ p. p) (codes "t") (pos 60) post) ≡ some (bearer (codes "t") (pos 60)))
    ↔ ((post.path ≡ token_path)
        × ((post.method ≡ codes "POST") ⊎ (post.method ≡ codes "GET"))
        × (bearer (codes "t") (pos 60) ≡ bearer (codes "t") (pos 60)))
new_handler-granted_example =
    new_handler-granted (λ p. p) (codes "t") (pos 60) refl post (bearer (codes "t") (pos 60))

resolve_settings-IsUsable_example :
    (is_empty minute_settings.addr ≡ false)
    × (is_empty minute_settings.token ≡ false)
    × (pos 1 ≤ℤ minute_settings.expires_in)
resolve_settings-IsUsable_example =
    resolve_settings-IsUsable minute_env no_flags minute_settings minute_resolved

abbrev skip : ℕ → Text → Text
skip zero s = s
skip (suc n) [] = []
skip (suc n) (c ∷ s) = skip n s

-- A client that reaches the stub at the address "127.0.0.1:8099" and nothing else
abbrev local_get : ℕ → Text → Result Error ℕ
local_get t url = ok (
    status_of (
      new_handler (λ p. p) (codes "local-emulator-token") (pos 60)
        (record { method = codes "GET"; path = skip 21 url })))

stub_main_ping_example :
    stub_main (codes "dev") minute_env local_get (λ p. p) (λ s. signal_first) (λ t s. none) no_flags
    ≡ exit 0
stub_main_ping_example =
    stub_main_ping (codes "dev") minute_env local_get (λ p. p) (λ s. signal_first) (λ t s. none)
      no_flags minute_settings (codes "127.0.0.1:8099") refl refl minute_resolved
      (inl (codes "8099", refl, refl)) (λ rest h. refl) refl
