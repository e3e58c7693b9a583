-- ===== src/Authentication/Basic/Environment.antt =====
-- src/authentication/BasicAuthenticationStrategy.h, the constructor: the fields are read from
-- environment variables in the order in which the class declares them.
use asabru_commons.Base.Int.{ℤ, pos}
use asabru_commons.Base.{Option, none, some, Bytes, codes, Outcome, ok, err, ◌>>=◌, runtime_error}
use asabru_commons.Authorization.AfcasClient.{stoi}
use asabru_commons.Authentication.CachedFileList.{cached_file_list}
use asabru_commons.Authentication.Basic.{BasicAuthenticationStrategy}

-- `std::getenv`, and the bytes of the file that a path names, if there is one.
pub record Environment : Type 0 where
  pub getenv : Bytes → Option Bytes
  pub file_at : Bytes → Option Bytes

abbrev pub secret_name : Bytes
secret_name = codes "AUTH_BASIC_SECRET"

abbrev pub username_name : Bytes
username_name = codes "AUTH_BASIC_USERNAME"

abbrev pub password_name : Bytes
password_name = codes "AUTH_BASIC_PASSWORD"

abbrev pub path_name : Bytes
path_name = codes "AUTH_BASIC_BLACKLIST_FILE_PATH"

abbrev pub expiration_name : Bytes
expiration_name = codes "AUTH_BASIC_EXPIRATION"

-- `getenv(name) ? getenv(name) : throw std::runtime_error(...)`.
abbrev pub required : Option Bytes → Outcome Bytes
required none = err runtime_error
required (some value) = ok value

expiration_of : Option Bytes → Outcome ℤ
expiration_of none = ok (pos 3_600)
expiration_of (some value) = stoi value

unfoldable pub basic_authentication_strategy : Environment → Outcome BasicAuthenticationStrategy
unfolding expiration_of
basic_authentication_strategy env = do
  secret ← required (env.getenv secret_name)
  username ← required (env.getenv username_name)
  password ← required (env.getenv password_name)
  path ← required (env.getenv path_name)
  expiration ← expiration_of (env.getenv expiration_name)
  ok (record {
    secret = secret;
    username = username;
    password = password;
    blacklisted_tokens = cached_file_list (env.file_at path);
    expiration = expiration;
  })
