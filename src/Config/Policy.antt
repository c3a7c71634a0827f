-- ===== src/Config/Policy.antt =====
-- The upload limits of src/config/mod.rs in bytes.
use update_delivery_system.Prelude.{
  ℕ, ◌*◌, ◌<◌, ◌^◌, ◌≡◌, refl, ap, ◌∙◌, ◌↔◌, String, Bool, true, false, ltb, ltb_iff, if◌then◌else◌,
}
use update_delivery_system.Errors.{Result, ok, err, config}
use update_delivery_system.Errors.Outcomes.{>>=-succeeds}
use update_delivery_system.Models.{UploadPolicy}
use update_delivery_system.Config.{UploadConfig, checked_mul, policy}

checked_mul_iff :
    (a b c : ℕ) (message : String) → (checked_mul a b message ≡ ok c) ↔ ((a * b ≡ c) × (c < 2 ^ 64))
checked_mul_iff a b c message = (forward, backward)
  where
    choice : Bool → Result ℕ
    choice t = if t then ok (a * b) else err (config message)

    at : (t : Bool) → ltb (a * b) (2 ^ 64) ≡ t → choice t ≡ ok c → (a * b ≡ c) × (c < 2 ^ 64)
    at true e h = let q : a * b ≡ c = cc in (q, rw (← q) ((ltb_iff (a * b) (2 ^ 64)).0 e))
    at false e h = cc

    forward : checked_mul a b message ≡ ok c → (a * b ≡ c) × (c < 2 ^ 64)
    forward h = at (ltb (a * b) (2 ^ 64)) refl h

    backward : (a * b ≡ c) × (c < 2 ^ 64) → checked_mul a b message ≡ ok c
    backward (q, l) =
        let r : a * b < 2 ^ 64 = rw q l in ap choice ((ltb_iff (a * b) (2 ^ 64)).1 r) ∙ ap ok q

-- The limits of a policy are those of the configuration in bytes, each a 64-bit number.
abbrev pub Scales : UploadConfig → UploadPolicy → Type 0
Scales u p =
    (u.max_artifact_size_mb * 1048576 ≡ p.max_artifact_bytes)
    × (u.max_total_artifact_size_mb * 1048576 ≡ p.max_total_artifact_bytes)
    × (u.max_metadata_size_kb * 1024 ≡ p.max_metadata_bytes)
    × (u.max_platforms ≡ p.max_platforms)
    × (p.max_artifact_bytes < 2 ^ 64)
    × (p.max_total_artifact_bytes < 2 ^ 64)
    × (p.max_metadata_bytes < 2 ^ 64)

-- A configuration has a policy exactly if the policy's limits are the configured sizes in bytes and
-- each is below 2 ^ 64: no limit is cut off by an overflow, and no configuration is refused that has
-- room for its limits.
pub policy_iff : (u : UploadConfig) (p : UploadPolicy) → (policy u ≡ ok p) ↔ Scales u p
unfolding policy
policy_iff u p = (forward, backward)
  where
    a : String
    a = "upload.max_artifact_size_mb is too large"

    t : String
    t = "upload.max_total_artifact_size_mb is too large"

    m : String
    m = "upload.max_metadata_size_kb is too large"

    forward : policy u ≡ ok p → Scales u p
    forward h =
        let (x, e, f) = >>=-succeeds (checked_mul u.max_artifact_size_mb 1048576 a) _ h in
        let (y, g, k) = >>=-succeeds (checked_mul u.max_total_artifact_size_mb 1048576 t) _ f in
        let (z, l, n) = >>=-succeeds (checked_mul u.max_metadata_size_kb 1024 m) _ k in
        let (ex, lx) = (checked_mul_iff u.max_artifact_size_mb 1048576 x a).0 e in
        let (ey, ly) = (checked_mul_iff u.max_total_artifact_size_mb 1048576 y t).0 g in
        let (ez, lz) = (checked_mul_iff u.max_metadata_size_kb 1024 z m).0 l in
        let q : record {
          max_artifact_bytes = x;
          max_total_artifact_bytes = y;
          max_metadata_bytes = z;
          max_platforms = u.max_platforms;
        }
            ≡ p =
          cc in
        (
          ex ∙ ap (λ (r : UploadPolicy). r.max_artifact_bytes) q,
          ey ∙ ap (λ (r : UploadPolicy). r.max_total_artifact_bytes) q,
          ez ∙ ap (λ (r : UploadPolicy). r.max_metadata_bytes) q,
          ap (λ (r : UploadPolicy). r.max_platforms) q,
          rw (← ap (λ (r : UploadPolicy). r.max_artifact_bytes) q) lx,
          rw (← ap (λ (r : UploadPolicy). r.max_total_artifact_bytes) q) ly,
          rw (← ap (λ (r : UploadPolicy). r.max_metadata_bytes) q) lz,
        )

    backward : Scales u p → policy u ≡ ok p
    backward (ex, ey, ez, ew, lx, ly, lz) =
        let x =
          (checked_mul_iff u.max_artifact_size_mb 1048576 p.max_artifact_bytes a).1 (ex, lx) in
        let y =
          (checked_mul_iff u.max_total_artifact_size_mb 1048576 p.max_total_artifact_bytes t).1
            (ey, ly) in
        let z = (checked_mul_iff u.max_metadata_size_kb 1024 p.max_metadata_bytes m).1 (ez, lz) in
        rw (x, y, z, ew)
