-- ===== src/App/Settings.antt =====
-- The configuration and the entry points of the service: recserve_app/config.py, and `secrets` and `main` of
-- recserve_app/entrypoint.py. The environment is an association list; `urlsplit`, `int` and the files
-- that hold secrets are parameters.
use Prim.Native.String.{◌++◌ as join}
use text.Mathlib.Text.{starts_with}
use recserve.Prelude.{
  ℕ, String, Bool, ◌||◌, not, Option, none, some, List, [], ◌∷◌, put, ltb, same, if◌then◌else◌,
}
use recserve.Exec.{Result, ok, err}

-- a split address; a missing part is empty
pub record Url : Type 0 where
  pub scheme : String
  pub hostname : String
  pub path : String
  pub query : String
  pub fragment : String
  pub username : String

pub record Settings : Type 0 where
  pub database_url : String
  pub origin : String
  pub google_client_id : String
  pub google_client_secret : String
  pub bundle : String
  pub upstream_host : String
  pub upstream_port : ℕ
  pub consent_version : String

pub data Misconfigured : Type 0 where
  missing : String → Misconfigured
  bad_port bad_origin bad_database no_credentials bad_secret unknown_action : Misconfigured

abbrev pub is_empty : String → Bool
is_empty s = same s ""

-- `__post_init__`
unfoldable pub check_settings : (String → Url) → Settings → Result Misconfigured Settings
check_settings urlsplit s =
    let parsed = urlsplit s.origin in
    if not (same parsed.scheme "https")
      || (is_empty parsed.hostname
          || (not (is_empty parsed.path)
              || (not (is_empty parsed.query)
                  || (not (is_empty parsed.fragment) || not (is_empty parsed.username)))))
    then err bad_origin
    else if not (starts_with s.database_url "postgresql+psycopg://")
    then err bad_database
    else if is_empty s.google_client_id || is_empty s.google_client_secret
    then err no_credentials
    else ok s

abbrev pub Environ : Type 0
Environ = List (String × String)

-- `os.environ.get(name)`
unfoldable pub lookup : String → Environ → Option String
lookup name [] = none
lookup name ((key, value) ∷ environ) = if same key name then some value else lookup name environ

abbrev pub get_or : String → String → Environ → String
get_or name fallback environ = elim (lookup name environ) [ none ↦ fallback | some value ↦ value ]

-- `os.environ[name]`
abbrev pub read_variable :
    {A : Type 0} → String → Environ → (String → Result Misconfigured A) → Result Misconfigured A
read_variable name environ f = elim (lookup name environ) [
  | none ↦ err (missing name)
  | some value ↦ f value
]

-- `Settings.from_env`
unfoldable pub from_env :
    (String → Url) → (String → Option ℕ) → Environ → Result Misconfigured Settings
from_env urlsplit int_of environ = read_variable "DATABASE_URL" environ λ database.
    read_variable "APP_ORIGIN" environ λ origin. read_variable "GOOGLE_CLIENT_ID" environ λ client.
      read_variable "GOOGLE_CLIENT_SECRET" environ λ secret.
        elim (int_of (get_or "RETRIEVAL_PORT" "9400" environ)) [
          | none ↦ err bad_port
          | some port ↦ check_settings urlsplit (record {
            database_url = database;
            origin = origin;
            google_client_id = client;
            google_client_secret = secret;
            bundle = get_or "MODEL_BUNDLE" "" environ;
            upstream_host = get_or "RETRIEVAL_HOST" "127.0.0.1" environ;
            upstream_port = port;
            consent_version = "research-v1";
          })
        ]

-- a mounted file: its size and its text, stripped
pub record Mounted : Type 0 where
  pub size : ℕ
  pub text : String

abbrev pub secret_names : List String
secret_names =
    "DATABASE_URL" ∷ "MIGRATION_DATABASE_URL" ∷ "GOOGLE_CLIENT_SECRET" ∷ "PRIVACY_S3_ACCESS_KEY_ID"
    ∷ "PRIVACY_S3_SECRET_ACCESS_KEY" ∷ "PRIVACY_FERNET_KEY" ∷ []

-- the loop of `secrets`; `files` gives the regular files
unfoldable pub load_secrets :
    (String → Option Mounted) → List String → Environ → Result Misconfigured Environ
load_secrets files [] environ = ok environ
load_secrets files (name ∷ names) environ =
    let skipped = load_secrets files names environ in
    elim (lookup (join name "_FILE") environ) [
      | none ↦ skipped
      | some path ↦ if is_empty path then skipped else elim (files path) [
        | none ↦ err bad_secret
        | some f ↦
            (let loaded = load_secrets files names (put name f.text environ) in
              if ltb 16384 f.size then err bad_secret else loaded)
      ]
    ]

-- what a container starts
pub data Service : Type 0 where
  api migration retrieval : Service

-- `main`: the action is the first argument
unfoldable pub action_of : List String → Result Misconfigured Service
action_of [] = ok api
action_of (action ∷ more) =
    if same action "api"
    then ok api
    else if same action "migrate"
    then ok migration
    else if same action "retrieval"
    then ok retrieval
    else err unknown_action
