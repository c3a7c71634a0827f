-- ===== src/Lib.antt =====
-- The update delivery system (UDS) distributes signed updates of an application to its clients. A
-- node keeps releases on disk and serves three HTTP APIs: a public one for update checks and
-- downloads, an administrative one for publishing, and an internal one between the nodes of a
-- fleet.
--
-- What is modelled, file by file of the repository:
-- * src/errors.rs in Errors: the error taxonomy `UdsError`, `?` as `>>=`, and `into_response`.
-- * src/auth.rs in Auth: the token texts (`verifier`, `verify_owner`, `parse_admin_token`), the
--   list of records in Auth/Records, and the repository `AdminTokenStore` with its file in
--   Auth/Store. An operation returns its result together with the store that it leaves, since a
--   failing write leaves memory changed. The answers of the file system to the calls of `persist`
--   are an argument.
-- * src/security.rs in Security: the three extractors over the authorization header and the store.
-- * src/shutdown.rs in Shutdown: the tracker of transfers in sequence, with its counters; and in
--   Shutdown/Waiting and Shutdown/Draining the two waits among other threads, as step relations
--   whose steps are the code's critical sections and atomic operations.
-- * src/stats.rs in Stats: the two aggregations; in Stats/Files the directories and computations
--   that stop before a change of the file system, whether the process dies or the change fails; in
--   Stats/Actor the actor. The removal of a directory is one change, also where it has files.
--   Unique names are arguments. The other children hold the proofs: Counters (what the
--   aggregations add), Sums and Recorded (what the directories hold), Batches, Moves, Compaction,
--   Commit and Recovery (where each operation ends and stops), Restarts and Persistence.
-- * src/models.rs in Models: the records that are stored and sent.
-- * src/storage.rs in Storage: names, versions and upload checks; the operations in
--   Storage/Repository over the releases and blobs as maps, each one step since they hold the
--   mutation lock, where only the call that makes a manifest visible may fail: the renames of
--   `publish_blob` and their clean-up, and the other calls of the file system, succeed;
--   `update_for` and `release_list` in Storage/Updates. Mutations runs them in sequence. Sorting,
--   Offers and Newest hold the proofs on the choice of the update, Blobs, Completeness and Pruning
--   those on the blobs, Accepted, Served and Downloads those from upload to download, Kept and
--   Permanence those on the releases.
-- * src/changelog.rs in Changelog: the viewer's state under the keys, and the wrapping of lines,
--   whose inner loop runs on as much fuel as the line has characters; each turn removes at least
--   one, so that this is enough.
-- * src/self_update.rs in SelfUpdate: the checks of manifests and archives, with the extraction in
--   SelfUpdate/Archive; the discovery of releases in Releases; `UpdateManager` in Manager, its
--   staging task in Staging, cut in two at the write of the status `downloading`; `apply_staged`
--   in Helper and `apply_pending` in Pending. Steps puts them together as a step relation, with
--   restarts, where a run of the helper is one step although it is a process beside the server.
--   The other children hold the proofs: Extraction, Replacement and Applying (what is installed),
--   Records, Tasks, Evolution, Settling and Activity (what each step keeps), Requests and
--   Abandoned.
-- * src/config/mod.rs in Config: the configuration with its defaults in Config/Defaults,
--   `validate` with its checks in the code's order in Config/Validation, the texts of wildcard
--   addresses, as the standard library parses them, in Config/Address, and `UploadConfig::policy`.
--   Listeners, Consistency, Accepted and Policy hold the proofs.
-- * src/cluster.rs in Cluster: `ClusterState`, the identity of the node, and the replication.
-- * src/routes/mod.rs in Routes: `read_release_multipart` in Routes/Multipart, where a file and
--   its hasher each collect the chunks, the handlers for tokens in Routes/Tokens, for changes of
--   releases in Routes/Releases and for update checks and lists in Routes/Checks, and the
--   administrative requests behind `reject_during_shutdown` and `AdminAuth` in Routes/Requests.
--   Received, Counted, Measured, Uploads, Audits, Serving, Complete and Revealed hold the proofs.
-- Prelude holds what the program takes from Rust: words, texts, and `BTreeMap` as a sorted list.
--
-- Parameters stand for what is not in the repository: the digest and the text form of identifiers
-- (`Crates`), versions, dates and URLs (`Libraries`), and the JSON file format (`Json`), with the
-- properties relied on as named hypotheses (`UuidText`, `ReadsBack`, `IsOrder`, `ShowParses`). So
-- do the signature, the archive formats and the release service of the self update, of which the
-- pages up to the last one with a release are a list, so that the loop over the pages ends there;
-- the URL parser and the files of a configuration (`Environment`); the parsed fields of an upload
-- with the decoder of its metadata (`Decoder`), where the calls of the file system succeed; and
-- what the peers answer (`Post`). The outcomes of the calls of the file system and of systemctl
-- are arguments where an error path of the code handles them, except for those that Storage and the
-- reading of an upload take as successful. Identifiers and times are natural
-- numbers given as arguments, for random and clock values. Counters of 64 bits wrap around as in a
-- release build, except where the code saturates; other loops are structural.
--
-- Not modelled: src/logging.rs, the administration client, and of src/routes/mod.rs the streamed
-- download, the handlers for statistics and logs and the logging of requests; the broadcast of a
-- node's presence; terminal prompts, the configuration wizard, TLS, listeners and signals, which
-- are input and output through libraries.
pub mod Prelude
pub mod Auth
pub mod Changelog
pub mod Cluster
pub mod Config
pub mod Errors
pub mod Models
pub mod Routes
pub mod Security
pub mod SelfUpdate
pub mod Shutdown
pub mod Stats
pub mod Storage
pub mod Tests
