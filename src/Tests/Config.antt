-- ===== src/Tests/Config.antt =====
-- src/config/mod.rs at concrete inputs.
use update_delivery_system.Prelude.{◌≡◌, ◌↔◌, refl, false, none}
use update_delivery_system.Prelude.Text.{
  ◌<>◌, is_empty, trim, trim_start, trim_end, is_whitespace, strip_prefix, as_bytes, utf8_char,
}
use update_delivery_system.Errors.{ok}
use update_delivery_system.Models.{UploadPolicy}
use update_delivery_system.Config.{ServerConfig, policy}
use update_delivery_system.Config.Defaults.{default_upload, production_single_node_default}
use update_delivery_system.Config.Address.{is_unspecified, split_double, zero_groups}
use update_delivery_system.Prelude.{true}
use update_delivery_system.Prelude.Text.{split}
use update_delivery_system.Config.Validation.{
  Environment, validate, identity_checks, valid_sha512_verifier, mode_checks, listener_checks,
  validate_tls, logging_checks, upload_checks, stats_checks,
}
use update_delivery_system.Config.Policy.{Scales, policy_iff}
use update_delivery_system.Config.Accepted.{IsConsistent, validate_iff}

abbrev environment : Environment
environment = record {
  file_exists = λ path. false;
  parse_url = λ value. none;
  url_error = λ value. "relative URL without a base";
}

unfoldable pub configured : ServerConfig
unfolding production_single_node_default
configured = record production_single_node_default {
  owner_token_verifier =
      "sha512:"
      <> "0123456789abcdef0123456789abcdef0123456789abcdef0123456789abcdef0123456789abcdef0123456789abcdef0123456789abcdef0123456789abcdef";
}

configured_passes : validate environment configured ≡ ok tt
unfolding configured validate identity_checks valid_sha512_verifier mode_checks listener_checks
    validate_tls logging_checks upload_checks stats_checks policy is_empty trim trim_start trim_end
    is_whitespace strip_prefix as_bytes utf8_char
configured_passes = refl

validate_iff_example :
    (validate environment configured ≡ ok tt) ↔ IsConsistent environment configured
validate_iff_example = validate_iff environment configured

abbrev pub default_policy : UploadPolicy
default_policy = record {
  max_artifact_bytes = 536870912;
  max_total_artifact_bytes = 2147483648;
  max_metadata_bytes = 1048576;
  max_platforms = 32;
}

policy_iff_example :
    (policy default_upload ≡ ok default_policy) ↔ Scales default_upload default_policy
policy_iff_example = policy_iff default_upload default_policy

pub policy_of_defaults : policy default_upload ≡ ok default_policy
unfolding policy
policy_of_defaults = refl

wildcards_found :
    (is_unspecified "0.0.0.0" ≡ true)
    × (is_unspecified "::" ≡ true)
    × (is_unspecified "0:0::0.0.0.0" ≡ true)
    × (is_unspecified "0:0:0:0:0:0:0:0" ≡ true)
unfolding is_unspecified split_double strip_prefix zero_groups split is_empty
wildcards_found = (refl, refl, refl, refl)

no_wildcards :
    (is_unspecified "[::]" ≡ false)
    × (is_unspecified "::1" ≡ false)
    × (is_unspecified "0.0.0.0::" ≡ false)
    × (is_unspecified "0:0:0:0:0:0:0" ≡ false)
    × (is_unspecified "uds.example.org" ≡ false)
unfolding is_unspecified split_double strip_prefix zero_groups split is_empty
no_wildcards = (refl, refl, refl, refl, refl)
