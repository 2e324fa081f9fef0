-- ===== src/Config/Validate/Bounds.antt =====
-- The numbers of an accepted configuration.
use nexuscloud.Base.{ℕ, ◌≡◌, ◌≤◌, Bool, true, false, none, ◌&&◌, ltb, arith, ||_eq_false}
use nexuscloud.GoText.{Int64, positive, negative}
use nexuscloud.Config.Model.{Config}
use nexuscloud.Config.Validate.{
  int_lt, int_gt, validate, server_checks, retention_checks, service_checks, Invalid, refuse_if,
  port_out_of_range, argon2_memory_low, argon2_iterations_low, argon2_parallelism_low,
  login_rate_low, api_rate_low, public_link_rate_low, webdav_rate_low, trash_retention_low,
  trash_size_negative, versions_low, version_age_negative, versions_size_negative,
  backup_interval_low, retention_count_negative, retention_days_negative, max_upload_negative,
}
use nexuscloud.Config.Validate.Checks.{Passes, Passes-false, validate-checks}

-- `k ≤ i`
abbrev pub AtLeast : ℕ → Int64 → Type 0
AtLeast k (positive n) = k ≤ n
AtLeast k (negative n) = (n ≡ 0) × (k ≡ 0)

-- `i ≤ k`
abbrev pub AtMost : ℕ → Int64 → Type 0
AtMost k (positive n) = n ≤ k
AtMost k (negative n) = Unit

int_lt-AtLeast : (i : Int64) (k : ℕ) → int_lt i k ≡ false → AtLeast k i
int_lt-AtLeast (positive n) k h = ground arith
int_lt-AtLeast (negative n) k h = ground arith

pub int_gt-AtMost : (i : Int64) (k : ℕ) → int_gt i k ≡ false → AtMost k i
int_gt-AtMost (positive n) k h = ground arith
int_gt-AtMost (negative n) k h = tt

-- The numbers that a server relies on once it runs.
pub record AreInRange (c : Config) : Type 0 where
  pub port : AtLeast 1 c.server.port × AtMost 65535 c.server.port
  pub argon2 :
      (8192 ≤ c.security.argon2.memory_kib)
      × (1 ≤ c.security.argon2.iterations)
      × (1 ≤ c.security.argon2.parallelism)
  pub rates :
      AtLeast 1 c.security.rate_limit.login_per_minute
      × AtLeast 1 c.security.rate_limit.api_per_minute
      × AtLeast 1 c.security.rate_limit.public_link_per_minute
      × AtLeast 1 c.security.rate_limit.webdav_per_minute
  pub lifetimes :
      (c.trash.enabled ≡ true → AtLeast 1 c.trash.retention_days)
      × (c.versioning.enabled ≡ true → AtLeast 1 c.versioning.max_versions_per_file)
      × (c.backup.enabled ≡ true → AtLeast 1 c.backup.interval_minutes)
  pub limits :
      AtLeast 0 c.trash.max_total_size_bytes
      × AtLeast 0 c.versioning.max_version_age_days
      × AtLeast 0 c.versioning.max_versions_total_size_bytes
      × AtLeast 0 c.backup.retention_count
      × AtLeast 0 c.backup.retention_days
      × AtLeast 0 c.webdav.max_upload_size_bytes

Passes-AtLeast : (i : Int64) (k : ℕ) (r : Invalid) → Passes (refuse_if (int_lt i k) r) → AtLeast k i
Passes-AtLeast i k r h = int_lt-AtLeast i k (Passes-false (int_lt i k) r h)

Passes-when_enabled :
    (b : Bool) (i : Int64) (k : ℕ) (r : Invalid)
    → Passes (refuse_if (b && int_lt i k) r)
    → b ≡ true
    → AtLeast k i
Passes-when_enabled true i k r h e = Passes-AtLeast i k r h
Passes-when_enabled false i k r h e = cc

Passes-not_below : (n k : ℕ) (r : Invalid) → Passes (refuse_if (ltb n k) r) → k ≤ n
Passes-not_below n k r h = let below = Passes-false (ltb n k) r h in ground arith

-- The port of an accepted configuration is one; the password hash takes 8 MiB at least, every rate
-- is positive, and so is what a feature that is on needs; no limit is negative.
pub validate-AreInRange : (c : Config) → validate c ≡ none → AreInRange c
unfolding server_checks retention_checks service_checks
validate-AreInRange c h =
    let checks = validate-checks c h in
    let server = checks.0 in
    let retention = checks.2 in
    let service = checks.3 in
    let port =
      ||_eq_false (int_lt c.server.port 1) (int_gt c.server.port 65535)
        (Passes-false _ port_out_of_range server.0) in
    let sec = server.1.1.1.1 in
    let rates = sec.1.1.1 in
    record {
      port = (int_lt-AtLeast c.server.port 1 port.0, int_gt-AtMost c.server.port 65535 port.1);
      argon2 = (
        Passes-not_below _ 8192 argon2_memory_low sec.0,
        Passes-not_below _ 1 argon2_iterations_low sec.1.0,
        Passes-not_below _ 1 argon2_parallelism_low sec.1.1.0,
      );
      rates = (
        Passes-AtLeast _ 1 login_rate_low rates.0,
        Passes-AtLeast _ 1 api_rate_low rates.1.0,
        Passes-AtLeast _ 1 public_link_rate_low rates.1.1.0,
        Passes-AtLeast _ 1 webdav_rate_low rates.1.1.1.0,
      );
      lifetimes = (
        Passes-when_enabled _ _ 1 trash_retention_low retention.0,
        Passes-when_enabled _ _ 1 versions_low retention.1.1.0,
        Passes-when_enabled _ _ 1 backup_interval_low retention.1.1.1.1.1.0,
      );
      limits = (
        Passes-AtLeast _ 0 trash_size_negative retention.1.0,
        Passes-AtLeast _ 0 version_age_negative retention.1.1.1.0,
        Passes-AtLeast _ 0 versions_size_negative retention.1.1.1.1.0,
        Passes-AtLeast _ 0 retention_count_negative retention.1.1.1.1.1.1.0,
        Passes-AtLeast _ 0 retention_days_negative retention.1.1.1.1.1.1.1.0,
        Passes-AtLeast _ 0 max_upload_negative service.1.1.0,
      );
    }
