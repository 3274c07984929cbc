-- ===== src/Credentials.antt =====
-- internal/credentials/credentials.go: the service account key file, over the operating system and
-- the cryptography of the standard library, which are an interface.
use gcp_emulator_provisioner.Prelude.{
  ℕ, not, ◌&&◌, [], ◌∷◌, ◌++◌, Text, codes, Result, is_empty, ◌==◌, if◌then◌else◌,
}
use gcp_emulator_provisioner.Client.Errors.{
  Error, plain, wrap, generating_key, encoding_private_key, encoding_key, creating_directory,
  writing_key,
}
use gcp_emulator_provisioner.Provisioner.Effects.{
  Act, pure, raise, lift, call, annotate, map_err, ◌>>=◌, ◌>>◌,
}
use gcp_emulator_provisioner.Provisioner.Admin.{Method}

pub record Key : Type 0 where
  pub key_type : Text
  pub project_id : Text
  pub private_key_id : Text
  pub private_key : Text
  pub client_email : Text
  pub client_id : Text
  pub auth_uri : Text
  pub token_uri : Text
  pub auth_provider_x509_cert_url : Text
  pub client_x509_cert_url : Text

-- The calls of packages os, crypto, encoding and filepath.
pub record System (W : Type 0) : Type 0 where
  -- `os.Stat`, of which the program reads the error alone
  pub stat : Text → Method W (Unit {0})
  -- `filepath.Dir`
  pub dir : Text → Text
  -- `os.MkdirAll` with a mode
  pub make_directories : Text → ℕ → Method W (Unit {0})
  -- `os.WriteFile` with a mode
  pub write_file : Text → Text → ℕ → Method W (Unit {0})
  -- `rsa.GenerateKey` with a number of bits; the key is opaque
  pub generate_key : ℕ → Method W Text
  -- `x509.MarshalPKCS8PrivateKey`
  pub marshal_pkcs8 : Text → Result Error Text
  -- `pem.EncodeToMemory` of a block of the given type
  pub encode_pem : Text → Text → Text
  -- `json.MarshalIndent`
  pub encode_json : Key → Result Error Text

abbrev pub default_account : Text
default_account = codes "local-emulator"

abbrev pub google_auth_uri : Text
google_auth_uri = codes "https://accounts.google.com/o/oauth2/auth"

abbrev pub google_token_uri : Text
google_token_uri = codes "https://oauth2.googleapis.com/token"

abbrev pub google_cert_uri : Text
google_cert_uri = codes "https://www.googleapis.com/oauth2/v1/certs"

abbrev pub google_client_certs : Text
google_client_certs = codes "https://www.googleapis.com/robot/v1/metadata/x509/"

abbrev pub key_bits : ℕ
key_bits = 2048

-- `FileMode` and `dirMode`
abbrev pub file_mode : ℕ
file_mode = 0o644

abbrev pub dir_mode : ℕ
dir_mode = 0o755

unfoldable pub email : Text → Text → Text
email project_id account = account ++ codes "@" ++ project_id ++ codes ".iam.gserviceaccount.com"

-- The key around a PEM text
unfoldable pub build_key : Text → Text → Text → Text → Key
unfolding email
build_key project_id account token_uri pem = record {
  key_type = codes "service_account";
  project_id = project_id;
  private_key_id = codes "local-emulator-key";
  private_key = pem;
  client_email = email project_id account;
  client_id = codes "000000000000000000000";
  auth_uri = if is_empty token_uri then google_auth_uri else token_uri;
  token_uri = if is_empty token_uri then google_token_uri else token_uri;
  auth_provider_x509_cert_url = if is_empty token_uri then google_cert_uri else token_uri;
  client_x509_cert_url =
      if is_empty token_uri then google_client_certs ++ email project_id account else token_uri;
}

abbrev pub or_default : Text → Text
or_default account = if is_empty account then default_account else account

module _ {W : Type 0} (sys : System W) where
  unfoldable pub generate : Text → Text → Text → Act W Key
  generate project_id account token_uri =
      if is_empty project_id
      then raise (plain (codes "project id is required to build a service account key"))
      else (do
        private ← annotate (wrap generating_key) (call (sys.generate_key key_bits))
        der ← lift (map_err (wrap encoding_private_key) (sys.marshal_pkcs8 private))
        pure (
            build_key project_id (or_default account) token_uri
              (sys.encode_pem (codes "PRIVATE KEY") der)))

  unfoldable pub make_parent : Text → Act W (Unit {0})
  make_parent path =
      let dir = sys.dir path in
      if not (is_empty dir) && not (dir == codes ".")
      then annotate (wrap (creating_directory path)) (call (sys.make_directories dir dir_mode))
      else pure tt

  unfoldable pub write : Text → Key → Act W (Unit {0})
  write path key = do
    encoded ← lift (map_err (wrap encoding_key) (sys.encode_json key))
    make_parent path
    annotate (wrap (writing_key path)) (call (sys.write_file path (encoded ++ 10 ∷ []) file_mode))
