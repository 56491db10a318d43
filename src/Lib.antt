-- ===== src/Lib.antt =====
-- Peristera: the file app Kamara up to its HTTP handlers, the tasks of Ergonomos, the libraries that the
-- apps share, and the controller that runs the apps of a tenant.
--
-- Parts, and how they interact. A file's bytes go through the chunker, the cipher and the blob store
-- (the chunk engine) before any row is written; then one transaction writes the rows of the object, its
-- version, its manifest and the reference counts of its chunks, with an audit event and a search
-- document; the ownership tuples follow outside the transaction. Editing sessions open one file to the
-- office engine. The HTTP handlers turn a request into calls of the service and its errors into
-- statuses. The control plane's controller brings each tenant's identity instance, database and apps to
-- the state that its spec names, one round at a time.
--
-- - Kamara.Chunk (kamara/internal/chunk): `cutpoint` and `Split`. A byte is a number below 256, and a
--   uint64 is a number below 2 ^ 64 with its wrap-around written out. `Split` takes fuel, one round for
--   each byte and one more, which is shown to be enough. A reader is the list of its reads.
-- - Kamara.Crypto (kamara/internal/crypto): the at-rest format. XChaCha20-Poly1305, BLAKE3 and the
--   random source are the parameters `Aead` and `Primitives`.
-- - Kamara.Blob (kamara/internal/blob): the interface `Store` as a record of operations and laws, and the
--   type FS, which fills it, over a file system where any call may fail.
-- - Kamara.Engine (kamara/internal/engine): `Ingest` and `Reassemble` over any blob store.
-- - Kamara.Tables, Kamara.Store, Kamara.FolderStore (kamara/internal/store): the tables of the
--   migrations and the statements of ObjectRepo, with the errors of keys and references and the cascade.
--   An iteration over a Go map is in the order of first occurrences.
-- - Kamara.ContentType, Kamara.Files (kamara/internal/file/file.go) and Kamara.Folders
--   (kamara/internal/file/folder.go): the operations of the service over a `World` of the database, the blobs and the authorization service,
--   which is a parameter. The retries of writeVersion are recursion on the five attempts. The walk of
--   wouldCycle takes fuel, one round for each folder and two more, which is shown to be enough.
-- - Kamara.FolderTree (DeleteFolderTree of folder.go) and Kamara.Listings (the ordered reads of
--   repos.go, Download and the lists of the service). The walk of DeleteFolderTree takes a round for each
--   folder and two more.
-- - Kamara.Wopi (kamara/internal/wopi/wopi.go): editing sessions. SHA-256 is a parameter.
-- - Kamara.Zip (kamara/internal/file/zip.go): DownloadZip. An archive is the list of its entries, and a
--   writer may fail. The search for a free name takes a round for each name that is used and one more,
--   and the walk of the tree a level for each folder and two more; both are shown to be enough.
-- - Kamara.Transfer: an upload and then a download, through all of the above.
-- - Kamara.Api (kamara/internal/api/api.go): the handlers, from the parts of a request to a response.
--   Kamara.WopiHost (kamara/internal/api/wopi.go): the endpoints of the office engine.
-- - Kamara.SubjectData (kamara/internal/file/subject_data.go): export and erasure of a person's files. The
--   depth of a folder takes a round for each folder, which is shown to be enough.
-- - Tasks (ergonomos/internal/task, ergonomos/internal/store): the task app, over the same shared stores.
-- - ControlPlane (control-plane/apis, control-plane/internal/controller): a tenant, its hosts and URLs
--   (ControlPlane), the catalog of apps (Catalog, of apps.go), one round of Reconcile (Reconcile, of
--   tenant_controller.go), and what the toggle of an optional app writes (OptionalApps, of
--   optional_apps.go). The API server of Kubernetes and the client of Zitadel are the parameters
--   `Cluster` and `Iam` (Platform); url.Parse is the field `host_name` of `Config`. What they are taken to
--   do where a round's success is stated is in Reconcile.Services.
-- - Pii (lib/pii): subjects and retention. Database (lib/dbtx, lib/id): transactions over a database
--   that may refuse any statement or the commit. Conventions (lib/pgconv, lib/pii/pseudonym.go,
--   lib/audit, lib/search): pseudonyms, audit events and the search feed over three tables that a `Lens`
--   finds among an app's.
-- - Session (lib/session): the in-memory store of login sessions.
-- - Prelude: results, code with a state (`Exec`), lists over the native naturals. Examples: a small world,
--   with every theorem that has hypotheses applied to it.
--
-- A run is sequential: the statements of one transaction have no others between them, and a race with
-- another shows as the error that it gives, which any statement may return. Where an operation reads
-- before its transaction, what others write in between is not modelled.
--
-- Not modelled: routing, the JSON encoding, templates and wiring; the bearer authentication; the
-- manifests of Kubernetes objects; the clients of the identity and authorization services and the API of
-- the control plane; the pages of Ergonomos; the registry of personal data. A number in the database does
-- not overflow its column: that is an error of the driver.
pub mod Prelude
pub mod Pii
pub mod Database
pub mod Conventions
pub mod Session
pub mod Kamara
pub mod Tasks
pub mod ControlPlane
pub mod Examples
