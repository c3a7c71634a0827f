-- ===== src/Config/Accepted.antt =====
-- `validate` of src/config/mod.rs as a whole: it accepts exactly the consistent configurations.
use update_delivery_system.Prelude.{
  ◌*◌, ◌≤◌, ◌<◌, ◌^◌, ◌≡◌, refl, ap, ◌∙◌, ◌↔◌, Bool, true, false, ◌&&◌, ◌||◌, ◌==◌, ltb, arith,
}
use update_delivery_system.Prelude.Text.{is_empty, trim}
use update_delivery_system.Errors.{Result, ok, ◌>>=◌, ◌>>◌}
use update_delivery_system.Errors.Outcomes.{>>-succeeds, >>=-succeeds}
use update_delivery_system.Models.{UploadPolicy}
use update_delivery_system.Stats.Files.{StatsConfig}
use update_delivery_system.Config.{UploadConfig, LoggingConfig, ServerConfig, policy}
use update_delivery_system.Config.Validation.{
  Environment, logging_checks, upload_checks, stats_checks, validate,
}
use update_delivery_system.Config.Policy.{policy_iff}
use update_delivery_system.Config.Consistency.{
  fail_if_iff, both_iff, IsIdentified, identity_iff, ModeFits, mode_iff, TlsFits,
}
use update_delivery_system.Config.Listeners.{FleetFits, listener_iff}

abbrev LoggingFits : LoggingConfig → Type 0
LoggingFits l = (is_empty (trim l.level) ≡ false) × (l.file.enabled ≡ true → 1 ≤ l.file.max_size_mb)

logging_iff : (l : LoggingConfig) → (logging_checks l ≡ ok tt) ↔ LoggingFits l
unfolding logging_checks
logging_iff l =
    let checks =
      both_iff _ _ (fail_if_iff (is_empty (trim l.level)) "logging.level must not be empty") (
        fail_if_iff (l.file.enabled && l.file.max_size_mb == 0)
          "logging.file.max_size_mb must be greater than 0") in
    (
      λ h. let (a, b) = checks.0 h in (a, λ e. ground arith),
      λ (a, b). checks.1 (a, sized l.file.enabled b),
    )
  where
    sized :
        (t : Bool) → (t ≡ true → 1 ≤ l.file.max_size_mb) → (t && l.file.max_size_mb == 0) ≡ false
    sized true b = ground (arith, b refl)
    sized false b = refl

-- No limit is zero, an artifact may be as large as all together, and each limit in bytes is a 64-bit
-- number.
abbrev UploadFits : UploadConfig → Type 0
UploadFits u =
    (1 ≤ u.max_artifact_size_mb)
    × (1 ≤ u.max_metadata_size_kb)
    × (1 ≤ u.max_platforms)
    × (u.max_artifact_size_mb ≤ u.max_total_artifact_size_mb)
    × (u.max_total_artifact_size_mb * 1048576 < 2 ^ 64)
    × (u.max_metadata_size_kb * 1024 < 2 ^ 64)

upload_iff : (u : UploadConfig) → (upload_checks u ≡ ok tt) ↔ UploadFits u
unfolding upload_checks
upload_iff u = (forward, backward)
  where
    zero_limit : Bool
    zero_limit =
        u.max_artifact_size_mb == 0
        || u.max_total_artifact_size_mb == 0
        || u.max_metadata_size_kb == 0
        || u.max_platforms == 0

    forward : upload_checks u ≡ ok tt → UploadFits u
    forward h =
        let (z, q) = >>-succeeds _ (policy u >>= λ p. ok tt) h in
        let (a, b) = >>-succeeds _ _ z in
        let zeros = (fail_if_iff zero_limit "upload limits must be greater than zero").0 a in
        let orders =
          (fail_if_iff (ltb u.max_total_artifact_size_mb u.max_artifact_size_mb) _).0 b in
        let (p, e, _) = >>=-succeeds (policy u) _ q in
        let (x, y, w, v, i, j, k) = (policy_iff u p).0 e in
        (ground arith, ground arith, ground arith, ground arith, rw y j, rw w k)

    scaled : UploadPolicy
    scaled = record {
      max_artifact_bytes = u.max_artifact_size_mb * 1048576;
      max_total_artifact_bytes = u.max_total_artifact_size_mb * 1048576;
      max_metadata_bytes = u.max_metadata_size_kb * 1024;
      max_platforms = u.max_platforms;
    }

    backward : UploadFits u → upload_checks u ≡ ok tt
    backward (a, m, n, o, t, s) =
        let e : policy u ≡ ok scaled =
          (policy_iff u scaled).1 (refl, refl, refl, refl, omega arith, t, s) in
        let zeros : zero_limit ≡ false = ground arith in
        let orders : ltb u.max_total_artifact_size_mb u.max_artifact_size_mb ≡ false =
          ground arith in
        let first =
          (both_iff _ _ (fail_if_iff zero_limit "upload limits must be greater than zero") (
              fail_if_iff (ltb u.max_total_artifact_size_mb u.max_artifact_size_mb)
                "upload.max_artifact_size_mb must not exceed upload.max_total_artifact_size_mb")).1
            (zeros, orders) in
        ap (λ (r : Result (Unit {0})). r >> (policy u >>= λ p. ok tt)) first
        ∙ ap (λ (r : Result UploadPolicy). r >>= λ p. ok tt) e

abbrev StatsFit : StatsConfig → Type 0
StatsFit s =
    (1 ≤ s.queue_capacity)
    × (1 ≤ s.rollup_trigger_events)
    × (1 ≤ s.rollup_interval_seconds)
    × (s.rollup_trigger_events ≤ s.max_pending_events)

stats_iff : (s : StatsConfig) → (stats_checks s ≡ ok tt) ↔ StatsFit s
unfolding stats_checks
stats_iff s =
    let checks =
      both_iff _ _
        (fail_if_iff
          (s.queue_capacity == 0
            || s.max_pending_events == 0
            || s.rollup_trigger_events == 0
            || s.rollup_interval_seconds == 0)
          "stats limits and intervals must be greater than zero")
        (fail_if_iff (ltb s.max_pending_events s.rollup_trigger_events)
          "stats.rollup_trigger_events must not exceed stats.max_pending_events") in
    (
      λ h. let (z, o) = checks.0 h in (ground arith, ground arith, ground arith, ground arith),
      λ (a, b, c, d). checks.1 (ground arith, ground arith),
    )

-- What later code relies on.
pub record IsConsistent (env : Environment) (c : ServerConfig) : Type 0 where
  pub identified : IsIdentified c
  pub mode_fits : ModeFits c.mode c.cluster_token c.fleet_api
  pub public_fits : TlsFits env c.public_api.tls.mode c.public_api.tls
  pub admin_fits : TlsFits env c.admin_api.tls.mode c.admin_api.tls
  pub fleet_fits : FleetFits env c.fleet_api
  pub logging_fits : LoggingFits c.logging
  pub upload_fits : UploadFits c.upload
  pub stats_fits : StatsFit c.stats
  pub graceful : 1 ≤ c.shutdown.grace_period_seconds

-- `validate` accepts a configuration exactly if it has an address, a verifier and a channel; a fleet
-- has a token of at least 16 bytes, not characters, and an interface with a bare HTTP address of which
-- the host, as written with the brackets of an IPv6 address, is not the text of an unspecified IP
-- address, so that `http://[::]:8443/` is accepted; a single node has no interface; each listener has
-- the files or names of its TLS mode; no limit is zero, and none contradicts another or overflows in
-- bytes.
pub validate_iff :
    (env : Environment) (c : ServerConfig) → (validate env c ≡ ok tt) ↔ IsConsistent env c
unfolding validate
validate_iff env c =
    let checks =
      both_iff _ _
        (both_iff _ _
          (both_iff _ _
            (both_iff _ _
              (both_iff _ _ (both_iff _ _ (identity_iff c) (mode_iff c)) (listener_iff env c))
              (logging_iff c.logging))
            (upload_iff c.upload))
          (stats_iff c.stats))
        (fail_if_iff (c.shutdown.grace_period_seconds == 0)
          "shutdown.grace_period_seconds must be greater than zero") in
    (
      λ h.
          let ((((((i, m), ((p, a), f)), l), u), s), g) = checks.0 h in
          record {
            identified = i;
            mode_fits = m;
            public_fits = p;
            admin_fits = a;
            fleet_fits = f;
            logging_fits = l;
            upload_fits = u;
            stats_fits = s;
            graceful = ground arith;
          },
      λ (r : IsConsistent env c).
          let g : (c.shutdown.grace_period_seconds == 0) ≡ false = ground (arith, r.graceful) in
          checks.1 (
            (
              (
                (
                  ((r.identified, r.mode_fits), ((r.public_fits, r.admin_fits), r.fleet_fits)),
                  r.logging_fits,
                ),
                r.upload_fits,
              ),
              r.stats_fits,
            ),
            g,
          ),
    )
