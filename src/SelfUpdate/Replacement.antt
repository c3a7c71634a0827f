-- ===== src/SelfUpdate/Replacement.antt =====
-- What `apply_staged` of src/self_update.rs leaves at the place of the executable.
use update_delivery_system.Prelude.{
  ◌≡◌, refl, ◌⊎◌, inl, inr, String, true, Option, none, some, is_some, length, ==_iff, eq_iff,
  arith, if◌then◌else◌,
}
use update_delivery_system.Prelude.Text.{◌<>◌, trim, to_ascii_lowercase}
use update_delivery_system.Prelude.BTreeMap.{get}
use update_delivery_system.Prelude.BTreeMap.Keys.{text_ord}
use update_delivery_system.Errors.{Result, ok, err}
use update_delivery_system.Errors.Outcomes.{>>=-succeeds, >>-succeeds, true_of_ok}
use update_delivery_system.SelfUpdate.{
  Bytes, Platform, UpdateManifest, UpdateArtifact, verify_signature, verify_signature_with_key,
  embedded, decoded, signature, selected_artifact, validate_manifest, validate_archive_bytes,
}
use update_delivery_system.SelfUpdate.Archive.{extract_executable}
use update_delivery_system.SelfUpdate.Manager.{Directory}
use update_delivery_system.SelfUpdate.Helper.{
  Host, HelperIo, read_present, verified_executable, on_file, renamed_in, renamed_away,
  removed_previous, executable_set, candidate_written, replace_binary,
}

-- Where the executable stands after a replacement: the new one with the old one beside it, or the
-- old one, or none with the old one beside it.
abbrev pub Replaced : Bytes → Bytes → Result (Unit {0}) × Host → Type 0
Replaced old executable (ok _, h) = (h.binary ≡ some executable) × (h.previous ≡ some old)
Replaced old executable (err e, h) =
    (h.binary ≡ some old) ⊎ ((h.binary ≡ none) × (h.previous ≡ some old))

module _ (old executable : Bytes) where
  renamed_in-Replaced :
      (h : Host) (a b : Result (Unit {0}))
      → h.binary ≡ none
      → h.previous ≡ some old
      → h.candidate ≡ some executable
      → Replaced old executable (renamed_in h a b)
  renamed_in-Replaced h (ok _) b e f g = (g, f)
  renamed_in-Replaced h (err x) (ok _) e f g = inl f
  renamed_in-Replaced h (err x) (err y) e f g = inr (e, f)

  renamed_away-Replaced :
      (fs : HelperIo) (h : Host) (a : Result (Unit {0}))
      → h.binary ≡ some old
      → h.candidate ≡ some executable
      → Replaced old executable (renamed_away fs h a)
  renamed_away-Replaced fs h (err x) e g = inl e
  renamed_away-Replaced fs h (ok _) e g =
      renamed_in-Replaced (record h { binary = none; previous = h.binary }) fs.rename_candidate
        fs.rename_back refl e g

  executable_set-Replaced :
      (fs : HelperIo) (h : Host) (a : Result (Unit {0}))
      → h.binary ≡ some old
      → h.candidate ≡ some executable
      → Replaced old executable (executable_set fs h a)
  executable_set-Replaced fs h (err x) e g = inl e
  executable_set-Replaced fs h (ok _) e g =
      go (if is_some h.previous then fs.remove_previous else ok tt)
    where
      go : (r : Result (Unit {0})) → Replaced old executable (removed_previous fs h r)
      go (err x) = inl e
      go (ok _) =
          renamed_away-Replaced fs (record h { previous = none })
            (on_file h.binary fs.rename_binary) e g

  pub replace_binary-Replaced :
      (fs : HelperIo) (h : Host)
      → h.binary ≡ some old
      → Replaced old executable (replace_binary fs h (ok executable))
  unfolding replace_binary
  replace_binary-Replaced fs h e = go fs.write_candidate
    where
      go : (r : Result (Unit {0})) → Replaced old executable (candidate_written fs executable h r)
      go (err x) = inl e
      go (ok _) =
          executable_set-Replaced fs (record h { candidate = some executable }) fs.set_executable e
            refl

-- An executable that the signed inputs of a directory vouch for.
pub record IsVerified (p : Platform) (d : Directory) (executable : Bytes) : Type 0 where
  pub manifest_bytes : Bytes
  pub signature_text : String
  pub archive : Bytes
  pub key : p.Key
  pub signature_bytes : Bytes
  pub signature : p.Signature
  pub manifest : UpdateManifest
  pub artifact : UpdateArtifact
  pub version : p.Version
  pub running : p.Version
  pub has_manifest : d.manifest ≡ some manifest_bytes
  pub has_signature : d.signature ≡ some signature_text
  pub has_archive : d.archive ≡ some archive
  pub has_key : p.update_public_key ≡ some key
  pub decodes : p.decode_base64 (trim signature_text) ≡ some signature_bytes
  pub reads : p.signature_from_slice signature_bytes ≡ some signature
  pub verifies : p.verify key manifest_bytes signature ≡ true
  pub parses : p.parse_manifest manifest_bytes ≡ ok manifest
  pub selects : get ("linux-" <> p.arch) manifest.artifacts ≡ some artifact
  pub eligible : artifact.self_update_supported ≡ true
  pub is_release : p.parse_semver manifest.version ≡ ok version
  pub is_running : p.parse_semver p.running_version ≡ ok running
  pub is_newer : p.version_lt running version ≡ true
  pub has_size : length archive ≡ artifact.size
  pub has_digest : p.sha256_hex archive ≡ to_ascii_lowercase artifact.sha256
  pub extracts : extract_executable p archive artifact.executable_path ≡ ok executable

-- What a signature check that succeeds has seen.
Signed : Platform → Bytes → String → Type 0
Signed p manifest encoded =
    (key : p.Key) × (bytes : Bytes) × (s : p.Signature) × (p.update_public_key ≡ some key)
    × (p.decode_base64 encoded ≡ some bytes)
    × (p.signature_from_slice bytes ≡ some s)
    × (p.verify key manifest s ≡ true)

verify_signature-Signed :
    (p : Platform) (manifest : Bytes) (encoded : String)
    → verify_signature p manifest encoded ≡ ok tt
    → Signed p manifest encoded
unfolding verify_signature verify_signature_with_key Signed
verify_signature-Signed p manifest encoded h =
    let (key, k, g) = >>=-succeeds (embedded p p.update_public_key) _ h in
    let (bytes, d, f) = >>=-succeeds (decoded p (p.decode_base64 encoded)) _ g in
    let (s, r, v) = >>=-succeeds (signature p (p.signature_from_slice bytes)) _ f in
    (
      key,
      bytes,
      s,
      embedded-eq-ok p.update_public_key k,
      decoded-eq-ok (p.decode_base64 encoded) d,
      signature-eq-ok (p.signature_from_slice bytes) r,
      true_of_ok _ _ v,
    )
  where
    embedded-eq-ok : {a : p.Key} (o : Option p.Key) → embedded p o ≡ ok a → o ≡ some a
    embedded-eq-ok none e = cc
    embedded-eq-ok (some a) e = cc

    decoded-eq-ok : {a : Bytes} (o : Option Bytes) → decoded p o ≡ ok a → o ≡ some a
    decoded-eq-ok none e = cc
    decoded-eq-ok (some a) e = cc

    signature-eq-ok : {a : p.Signature} (o : Option p.Signature) → signature p o ≡ ok a → o ≡ some a
    signature-eq-ok none e = cc
    signature-eq-ok (some a) e = cc

-- What a manifest that is valid has.
Selected : Platform → UpdateManifest → String → UpdateArtifact → Type 0
Selected p manifest version artifact =
    (parsed : p.Version) × (running : p.Version) × (p.parse_semver version ≡ ok parsed)
    × (p.parse_semver p.running_version ≡ ok running)
    × (p.version_lt running parsed ≡ true)
    × (get ("linux-" <> p.arch) manifest.artifacts ≡ some artifact)
    × (artifact.self_update_supported ≡ true)

validate_manifest-Selected :
    (p : Platform) (manifest : UpdateManifest) (tag version : String) (artifact : UpdateArtifact)
    → validate_manifest p manifest tag version ≡ ok artifact
    → Selected p manifest version artifact
unfolding validate_manifest Selected
validate_manifest-Selected p manifest tag version artifact h =
    let (_, g) = >>-succeeds _ _ h in
    let (parsed, e, f) = >>=-succeeds (p.parse_semver version) _ g in
    let (running, r, k) = >>=-succeeds (p.parse_semver p.running_version) _ f in
    let (n, s) = >>-succeeds _ _ k in
    let (o, u) = select (get ("linux-" <> p.arch) manifest.artifacts) s in
    (parsed, running, e, r, true_of_ok _ _ n, o, u)
  where
    select :
        (o : Option UpdateArtifact)
        → selected_artifact p o ≡ ok artifact
        → (o ≡ some artifact) × (artifact.self_update_supported ≡ true)
    select none e = cc
    select (some a) e = ground arith

validate_archive_bytes-eq-ok :
    (p : Platform) (bytes : Bytes) (artifact : UpdateArtifact)
    → validate_archive_bytes p bytes artifact ≡ ok tt
    → (length bytes ≡ artifact.size) × (p.sha256_hex bytes ≡ to_ascii_lowercase artifact.sha256)
unfolding validate_archive_bytes
validate_archive_bytes-eq-ok p bytes artifact h =
    let (s, d) = >>-succeeds _ _ h in
    (
      (==_iff _ _).0 (true_of_ok _ _ s),
      (eq_iff (p.sha256_hex bytes) (to_ascii_lowercase artifact.sha256)).0 (true_of_ok _ _ d),
    )

read_present-eq-ok : {A : Type 0} {a : A} (o : Option A) → read_present o ≡ ok a → o ≡ some a
read_present-eq-ok none e = cc
read_present-eq-ok (some a) e = cc

pub verified_executable-IsVerified :
    (p : Platform) (d : Directory) (executable : Bytes)
    → verified_executable p d ≡ ok executable
    → IsVerified p d executable
unfolding verified_executable Signed Selected
verified_executable-IsVerified p d executable h =
    let (manifest_bytes, m, h1) = >>=-succeeds (read_present d.manifest) _ h in
    let (signature_text, s, h2) = >>=-succeeds (read_present d.signature) _ h1 in
    let (v, h3) = >>-succeeds _ _ h2 in
    let (manifest, q, h4) = >>=-succeeds (p.parse_manifest manifest_bytes) _ h3 in
    let (artifact, w, h5) =
      >>=-succeeds (validate_manifest p manifest manifest.tag manifest.version) _ h4 in
    let (archive, a, h6) = >>=-succeeds (read_present d.archive) _ h5 in
    let (b, x) = >>-succeeds _ _ h6 in
    let signed = verify_signature-Signed p manifest_bytes (trim signature_text) v in
    let selected = validate_manifest-Selected p manifest manifest.tag manifest.version artifact w in
    let checked = validate_archive_bytes-eq-ok p archive artifact b in
    record {
      manifest_bytes = manifest_bytes;
      signature_text = signature_text;
      archive = archive;
      key = signed.0;
      signature_bytes = signed.1;
      signature = signed.2;
      manifest = manifest;
      artifact = artifact;
      version = selected.0;
      running = selected.1;
      has_manifest = read_present-eq-ok d.manifest m;
      has_signature = read_present-eq-ok d.signature s;
      has_archive = read_present-eq-ok d.archive a;
      has_key = signed.3;
      decodes = signed.4;
      reads = signed.5;
      verifies = signed.6;
      parses = q;
      selects = selected.5;
      eligible = selected.6;
      is_release = selected.2;
      is_running = selected.3;
      is_newer = selected.4;
      has_size = checked.0;
      has_digest = checked.1;
      extracts = x;
    }
