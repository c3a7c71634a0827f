-- ===== src/SelfUpdate/Staging.antt =====
-- The staging task of src/self_update.rs, in two parts: up to the write of the status `downloading`,
-- and the rest. An error of either is recorded by `fail`.
use update_delivery_system.Prelude.{ℕ, String, some, List, [], ◌∷◌, str_eq, if◌then◌else◌}
use update_delivery_system.Prelude.Text.{◌<>◌}
use update_delivery_system.Prelude.BTreeMap.{insert}
use update_delivery_system.Prelude.BTreeMap.Keys.{id_ord}
use update_delivery_system.Errors.{Result, ok, err, ◌>>=◌, ◌>>◌, bad_request, show_error}
use update_delivery_system.SelfUpdate.{
  Bytes, regular, prerelease, GithubRelease, Platform, UpdateOperation, downloading, staged,
  validate_manifest, validate_archive_bytes,
}
use update_delivery_system.SelfUpdate.Releases.{Network, github_releases, fetch_manifest}
use update_delivery_system.SelfUpdate.Manager.{
  Node, get_operation, change_directory, put_operation, write_next, write, with_status, fail,
}

-- The outcomes of the writes of a staging task, in their order, and of the write of `fail`.
pub record StageIo : Type 0 where
  pub directory : Result (Unit {0})
  pub manifest : Result (Unit {0})
  pub signature : Result (Unit {0})
  pub archive : Result (Unit {0})
  pub status : Result (Unit {0})
  pub marker : Result (Unit {0})
  pub failure : Result (Unit {0})

abbrev pub begin_with :
    Result (Unit {0}) → String → ℕ → UpdateOperation → Result (Unit {0}) × Node → Node
begin_with failure now id operation (ok _, n) = record n { staging = operation ∷ n.staging }
begin_with failure now id operation (err e, n) = fail failure now id (show_error e) n

abbrev pub begin_found :
    Result (Unit {0}) → Result (Unit {0}) → String → ℕ → Node → Result UpdateOperation → Node
begin_found io failure now id n (err e) = fail failure now id (show_error e) n
begin_found io failure now id n (ok operation) =
    let operation' = with_status downloading now operation in
    begin_with failure now id operation' (write io operation' n)

-- The task with the identifier `id` runs to the end of the first `set_status`.
unfoldable pub begin_stage : Result (Unit {0}) → Result (Unit {0}) → String → ℕ → Node → Node
unfolding get_operation write
begin_stage io failure now id n = begin_found io failure now id n (get_operation id n)

abbrev find_release : String → List GithubRelease → Result GithubRelease
find_release tag [] =
    err (bad_request "the exact selected release is unavailable in the chosen category")
find_release tag (release ∷ releases) =
    if str_eq release.tag_name tag then ok release else find_release tag releases

module _ (p : Platform) where
  -- The signed inputs of an operation, as they are downloaded and checked.
  unfoldable pub download : Network → UpdateOperation → Result (Bytes × String × Bytes)
  download net operation =
      github_releases net (if operation.request.allow_prerelease then prerelease else regular)
      >>= λ releases. find_release ("v" <> operation.request.version) releases >>= λ github.
          fetch_manifest p net github >>= λ fetched.
          validate_manifest p fetched.0 github.tag_name operation.request.version >>= λ artifact.
          net.bytes artifact.url >>= λ archive.
          validate_archive_bytes p archive artifact >> ok (fetched.1, fetched.2, archive)

  abbrev pub write_files :
      StageIo → String → UpdateOperation → Bytes × String × Bytes → Node → Result (Unit {0}) × Node
  write_files io now operation (manifest, signature, archive) n =
      let id = operation.request.operation_id in
      let made = write_next (ok tt, n) io.directory (change_directory id (λ d. d)) in
      let one =
        write_next made io.manifest
          (change_directory id (λ d. record d { manifest = some manifest })) in
      let two =
        write_next one io.signature
          (change_directory id (λ d. record d { signature = some signature })) in
      let three =
        write_next two io.archive
          (change_directory id (λ d. record d { archive = some archive })) in
      let four = write_next three io.status (put_operation (with_status staged now operation)) in
      write_next four io.marker (λ m. record m { markers = insert id tt m.markers })

  abbrev pub finish_with : StageIo → String → ℕ → Result (Unit {0}) × Node → Node
  finish_with io now id (ok _, n) = n
  finish_with io now id (err e, n) = fail io.failure now id (show_error e) n

  abbrev pub finish_downloaded :
      StageIo → String → UpdateOperation → Node → Result (Bytes × String × Bytes) → Node
  finish_downloaded io now operation n (err e) =
      fail io.failure now operation.request.operation_id (show_error e) n
  finish_downloaded io now operation n (ok files) =
      finish_with io now operation.request.operation_id (write_files io now operation files n)

  -- The rest of a task that has begun.
  unfoldable pub finish_stage : Network → StageIo → String → UpdateOperation → Node → Node
  finish_stage net io now operation n =
      finish_downloaded io now operation n (download net operation)
