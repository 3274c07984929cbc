-- ===== src/TokenStub/Laws.antt =====
-- What cmd/gcp-token-stub/main.go answers, and what its settings are.
use gcp_emulator_provisioner.Prelude.{
  ℕ, ◌≡◌, refl, ap, sym, ◌∙◌, ◌↔◌, ◌⊎◌, inl, inr, true, false, Option, none, some, [], ◌∷◌, ◌++◌,
  has_prefix, arith, Text, codes, Result, ok, is_empty, nat_eq, if◌then◌else◌, text_dec,
}
use gcp_emulator_provisioner.Prelude.Int.{ℤ, pos, ltb_ℤ, ◌≤ℤ◌}
use gcp_emulator_provisioner.Config.GoTime.{atoi}
use gcp_emulator_provisioner.Client.Errors.{Error}
use gcp_emulator_provisioner.TokenStub.{
  Flags, Settings, default_addr, default_access_token, probe_timeout, first_non_empty,
  positive_seconds, resolve_expires_in, with_expires_in, resolve_settings, probe_host, probe_url,
  probe_answer, Selected, Server, exit, exit_on, with_settings, stub_main,
}
use gcp_emulator_provisioner.TokenStub.Handler.{
  TokenResponse, token_body, error_body, Request, Reply, written, moved, write_json, handle_token,
  handle_other, new_handler,
}

-- The token that a reply hands out
abbrev pub granted : Reply → Option TokenResponse
granted (written status content_type (token_body t)) = if nat_eq status 200 then some t else none
granted (written status content_type (error_body e)) = none
granted (moved path) = none

abbrev pub status_of : Reply → ℕ
status_of (written status content_type body) = status
status_of (moved path) = 301

abbrev pub token_path : Text
token_path = codes "/token"

abbrev pub bearer : Text → ℤ → TokenResponse
bearer token expires_in = record {
  access_token = token;
  token_type = codes "Bearer";
  expires_in = expires_in;
}

module _ (clean : Text → Text) (token : Text) (expires_in : ℤ)
    (cleaned : clean token_path ≡ token_path) where
  abbrev Asks : Request → Type 0
  Asks r = (r.path ≡ token_path) × ((r.method ≡ codes "POST") ⊎ (r.method ≡ codes "GET"))

  granted_sound :
      (r : Request) (t : TokenResponse)
      → granted (new_handler clean token expires_in r) ≡ some t
      → Asks r × (t ≡ bearer token expires_in)
  unfolding new_handler handle_token handle_other write_json
  granted_sound r t h = ground arith

  granted_complete :
      (r : Request)
      → Asks r
      → granted (new_handler clean token expires_in r) ≡ some (bearer token expires_in)
  unfolding new_handler handle_token handle_other write_json text_dec
  granted_complete r (path, inl method) = rw (path, method, cleaned) refl
  granted_complete r (path, inr method) = rw (path, method, cleaned) refl

  -- Where the mux leaves the path "/token" as it is, the handler hands out a token exactly to a POST
  -- or GET of that path, and then the configured one, as a bearer token with the configured lifetime.
  pub new_handler-granted :
      (r : Request) (t : TokenResponse)
      → (granted (new_handler clean token expires_in r) ≡ some t) ↔ (
          (r.path ≡ token_path)
          × ((r.method ≡ codes "POST") ⊎ (r.method ≡ codes "GET"))
          × (t ≡ bearer token expires_in))
  new_handler-granted r t = (
    λ h. let ((path, method), same) = granted_sound r t h in (path, method, same),
    λ (path, method, same). granted_complete r (path, method) ∙ ap (λ b. some b) (sym same),
  )

  status_of_probe :
      status_of
        (new_handler clean token expires_in (record { method = codes "GET"; path = token_path }))
      ≡ 200
  unfolding new_handler handle_token handle_other write_json text_dec
  status_of_probe = rw cleaned refl

first_non_empty_last :
    (a b c : Text) → is_empty c ≡ false → is_empty (first_non_empty (a ∷ b ∷ c ∷ [])) ≡ false
unfolding first_non_empty
first_non_empty_last a b c h = ground arith

positive_seconds_lem : (o : Option ℤ) (n : ℤ) → positive_seconds o ≡ some n → ltb_ℤ (pos 0) n ≡ true
unfolding positive_seconds
positive_seconds_lem none n h = cc
positive_seconds_lem (some k) n h = ground arith

resolve_expires_in_lem :
    (raw : Text) (n : ℤ) → resolve_expires_in raw ≡ some n → ltb_ℤ (pos 0) n ≡ true
unfolding resolve_expires_in
resolve_expires_in_lem [] n h = ground arith
resolve_expires_in_lem (c ∷ raw) n h = positive_seconds_lem (atoi (c ∷ raw)) n h

with_expires_in_lem :
    (addr token : Text) (o : Option ℤ) (s : Settings)
    → with_expires_in addr token o ≡ some s
    → (s.addr ≡ addr) × (s.token ≡ token) × (o ≡ some s.expires_in)
unfolding with_expires_in
with_expires_in_lem addr token none s h = cc
with_expires_in_lem addr token (some n) s h = (cc, cc, cc)

module _ (getenv : Text → Text) where
  -- Settings that the command goes on with have an address and a token that are not empty and a
  -- positive lifetime, whatever the flags and the environment are.
  pub resolve_settings-IsUsable :
      (f : Flags) (s : Settings)
      → resolve_settings getenv f ≡ some s
      → (is_empty s.addr ≡ false) × (is_empty s.token ≡ false) × (pos 1 ≤ℤ s.expires_in)
  unfolding resolve_settings
  resolve_settings-IsUsable f s h =
      let (addr, token, lifetime) = with_expires_in_lem _ _ _ s h in
      (
        ap is_empty addr
            ∙ first_non_empty_last f.addr (getenv (codes "TOKEN_STUB_ADDR")) default_addr refl,
        ap is_empty token
            ∙ first_non_empty_last f.token (getenv (codes "TOKEN_STUB_ACCESS_TOKEN"))
                default_access_token refl,
        ground (
          arith,
          resolve_expires_in_lem (getenv (codes "TOKEN_STUB_EXPIRES_IN")) s.expires_in lifetime,
        ),
      )

-- Where a listener on an address is reached from the same machine: an address without a host listens
-- on every interface.
abbrev pub Reaches : Text → Text → Type 0
Reaches addr host =
    ((port : Text) × (addr ≡ codes ":" ++ port) × (host ≡ codes "127.0.0.1:" ++ port))
    ⊎ ((has_prefix addr (codes ":") ≡ false) × (host ≡ addr))

probe_host-Reaches : (addr host : Text) → Reaches addr host → probe_host addr ≡ host
unfolding probe_host has_prefix
probe_host-Reaches addr host (inl (port, listens, dials)) = rw (listens, dials) refl
probe_host-Reaches addr host (inr (named, dials)) = rw (named, dials) refl

module _ (http_get : ℕ → Text → Result Error ℕ) (clean : Text → Text) (s : Settings) where
  -- The server is up: what a client asks of its host, under any path that the mux leaves as it is, is
  -- answered by the handler.
  abbrev pub IsUp : Text → Type 0
  IsUp host =
      (rest : Text)
      → clean (codes "/" ++ rest) ≡ codes "/" ++ rest
      → http_get probe_timeout (codes "http://" ++ (host ++ (codes "/" ++ rest)))
        ≡ ok (
            status_of (
              new_handler clean s.token s.expires_in
                (record { method = codes "GET"; path = codes "/" ++ rest })))

  probe_lem :
      (host : Text)
      → Reaches s.addr host
      → IsUp host
      → clean token_path ≡ token_path
      → probe_answer (http_get probe_timeout (probe_url s.addr)) ≡ none
  unfolding probe_url probe_answer
  probe_lem host reaches up cleaned =
      rw
        (
          probe_host-Reaches s.addr host reaches,
          up (codes "token") cleaned,
          status_of_probe clean s.token s.expires_in cleaned,
        )
        refl

-- The probe of the command ends with status 0 at a server of the same settings that is up on this
-- machine and answers each path with the handler, where the mux leaves the path "/token" as it is.
pub stub_main_ping :
    (version : Text) (getenv : Text → Text) (http_get : ℕ → Text → Result Error ℕ)
    (clean : Text → Text) (select : Server → Selected) (shutdown : ℕ → Server → Option Error)
    (f : Flags) (s : Settings) (host : Text)
    → f.show_version ≡ false
    → f.ping ≡ true
    → resolve_settings getenv f ≡ some s
    → Reaches s.addr host
    → IsUp http_get clean s host
    → clean token_path ≡ token_path
    → stub_main version getenv http_get clean select shutdown f ≡ exit 0
unfolding stub_main with_settings exit_on
stub_main_ping version getenv http_get clean select shutdown f s host shown ping settings reaches up
      cleaned =
    simp (shown, settings, ping, probe_lem http_get clean s host reaches up cleaned)
