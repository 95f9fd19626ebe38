-- ===== src/App/Config.antt =====
-- app/config.py: the configuration, from a file or from its defaults. The YAML parser and the
-- validation of pydantic are not modelled: a file is what it parses to, its values of their types.
use euicc_simulator.Prelude.{◌>>=◌, ℕ, Option, none, some, List, [], Text, codes, default}

pub record ServerConfig : Type 0 where
  pub tcp_start_port : ℕ
  pub http_port : ℕ
  pub host : Text
  pub tcp_max_connections : ℕ

pub record EuiccDefaults : Type 0 where
  pub svn : Text
  pub profile_version : Text
  pub iot_version : Text
  pub total_nvm : ℕ
  pub platform_label : Text
  pub ipa_mode : ℕ

pub record SimConfig : Type 0 where
  pub server : ServerConfig
  pub euicc : EuiccDefaults
  pub database_url : Text
  pub certs_dir : Text
  pub eids : List (ℕ × Text)

-- A mapping of the file, a missing key being `none`.
pub record RawServer : Type 0 where
  pub tcp_start_port : Option ℕ
  pub http_port : Option ℕ
  pub host : Option Text
  pub tcp_max_connections : Option ℕ

pub record RawEuicc : Type 0 where
  pub svn : Option Text
  pub profile_version : Option Text
  pub iot_version : Option Text
  pub total_nvm : Option ℕ
  pub platform_label : Option Text
  pub ipa_mode : Option ℕ

-- What `raw.get(key, …)` finds: no key, a key with nothing behind it, or a value.
pub data Entry {ℓ} (A : Type ℓ) : Type ℓ where
  missing null : Entry A
  given : A → Entry A

pub record Raw : Type 0 where
  pub server : Entry RawServer
  pub euicc : Entry RawEuicc
  pub database_url : Entry Text
  pub certs_dir : Entry Text
  pub eids : Entry (List (ℕ × Text))

abbrev pub empty_server : RawServer
empty_server = record {
  tcp_start_port = none;
  http_port = none;
  host = none;
  tcp_max_connections = none;
}

abbrev pub empty_euicc : RawEuicc
empty_euicc = record {
  svn = none;
  profile_version = none;
  iot_version = none;
  total_nvm = none;
  platform_label = none;
  ipa_mode = none;
}

-- `{}`.
abbrev pub empty_raw : Raw
empty_raw = record {
  server = missing;
  euicc = missing;
  database_url = missing;
  certs_dir = missing;
  eids = missing;
}

-- `ServerConfig(**…)` and `EuiccDefaults(**…)`.
abbrev pub server_config : RawServer → ServerConfig
server_config r = record {
  tcp_start_port = default r.tcp_start_port 9000;
  http_port = default r.http_port 8100;
  host = default r.host (codes "0.0.0.0");
  tcp_max_connections = default r.tcp_max_connections 100;
}

abbrev pub euicc_defaults : RawEuicc → EuiccDefaults
euicc_defaults r = record {
  svn = default r.svn (codes "3.1.0");
  profile_version = default r.profile_version (codes "2.3.1");
  iot_version = default r.iot_version (codes "1.2.0");
  total_nvm = default r.total_nvm 524288;
  platform_label = default r.platform_label (codes "GSMA-eSIM-Simulator");
  ipa_mode = default r.ipa_mode 0;
}

-- `raw.get(key, value)`; what is null is no mapping and no text, and an exception follows.
abbrev pub get_or_raise {ℓ} : {A : Type ℓ} → A → Entry A → Option A
get_or_raise a missing = some a
get_or_raise a null = none
get_or_raise a (given b) = some b

-- `yaml.safe_load(…) or {}` of a file, or `{}` where there is none.
abbrev pub raw_of : Option (Entry Raw) → Raw
raw_of none = empty_raw
raw_of (some missing) = empty_raw
raw_of (some null) = empty_raw
raw_of (some (given raw)) = raw

-- `none` is an exception.
unfoldable pub from_yaml : Option (Entry Raw) → Option SimConfig
from_yaml file = do
  server ← get_or_raise empty_server (raw_of file).server
  euicc ← get_or_raise empty_euicc (raw_of file).euicc
  database_url ← get_or_raise (codes "sqlite:///./esim_simulator.db") (raw_of file).database_url
  certs_dir ← get_or_raise (codes "./certs") (raw_of file).certs_dir
  eids ← get_or_raise [] (raw_of file).eids
  some record {
    server = server_config server;
    euicc = euicc_defaults euicc;
    database_url = database_url;
    certs_dir = certs_dir;
    eids = eids;
  }
