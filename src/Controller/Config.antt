-- ===== src/Controller/Config.antt =====
-- crates/tailsvc-controller/src/config.rs: what the handlers read, and the registration policy.
pub mod Policy
use tailroute.Base.{
  ℕ, Result, ok, err, ◌>>=◌, ◌>>◌, Bool, ◌||◌, List, [], ◌∷◌, ◌++◌, is_empty, if◌then◌else◌,
}
use tailroute.Base.Keys.{◌==◌, list_key, nat_key}
use tailroute.Base.Text.{Text, text, to_ascii_lowercase, trim_start_matches, ends_with}

pub record ApiConfig : Type 0 where
  pub admin_username : Text
  pub session_ttl_seconds : ℕ

pub record LeaseConfig : Type 0 where
  pub heartbeat_interval_seconds : ℕ
  pub agent_ttl_seconds : ℕ

pub record SecurityConfig : Type 0 where
  pub allowed_suffixes : List Text
  pub blocked_names : List Text

pub record ControllerConfig : Type 0 where
  pub api : ApiConfig
  pub leases : LeaseConfig
  pub security : SecurityConfig

-- The loop over the blocked names; `h` is the hostname in lower case.
unfoldable pub check_blocked : Text → Text → List Text → Result Unit Text
check_blocked host h [] = ok tt
check_blocked host h (b ∷ names) =
    if h == to_ascii_lowercase b
    then err (text "hostname blocked by policy: " ++ host)
    else check_blocked host h names

-- The loop over the allowed suffixes.
unfoldable pub check_suffixes : Text → Text → List Text → Result Unit Text
check_suffixes host h [] = err (text "hostname not under allowed_suffixes: " ++ host)
check_suffixes host h (suf ∷ suffixes) =
    let s = to_ascii_lowercase suf in
    if (h == trim_start_matches b'.' s) || ends_with s h
    then ok tt
    else check_suffixes host h suffixes

unfoldable pub hostname_allowed : ControllerConfig → Text → Result Unit Text
hostname_allowed cfg host =
    let h = to_ascii_lowercase host in
    (do
      check_blocked host h cfg.security.blocked_names
      (if is_empty cfg.security.allowed_suffixes
          then ok tt
          else check_suffixes host h cfg.security.allowed_suffixes))
