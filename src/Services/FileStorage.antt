-- ===== src/Services/FileStorage.antt =====
-- app/services/file_storage.py: `LocalFileStorage`, over the operating system's files as a parameter. The
-- worker thread that makes the calls is left out, and so is the backend that is cached for a process.
pub mod Contained
pub mod Restored
use async_ai_document_pipeli.Prelude.{
  ℕ, Bool, true, false, not, ◌&&◌, List, [], ◌∷◌, map, String, str_eq, elem, if◌then◌else◌, ◌⊕◌,
  length,
}
use async_ai_document_pipeli.Core.Errors.{
  ErrorClass, storage_error, storage_path, Exn, app, foreign, app_exn, isinstance,
}
use async_ai_document_pipeli.Core.Exec.{
  Outcome, ok, raised, Exec, pure, raise, ◌>>=◌, ◌>>◌, try_except,
}
use async_ai_document_pipeli.Db.Models.{Uuid, Instant, StoredFile}
use async_ai_document_pipeli.Platform.{Bytes, Environment, Files}

-- An absolute path that is resolved: its components from the file system's root.
abbrev pub FilePath : Type 0
FilePath = List String

-- The calls of `pathlib` that reach the disk.
pub record Disk (D : Type 0) : Type 0 where
  -- `(root / key).resolve()`, which follows the symbolic links that there are
  pub resolve : FilePath → String → D → Outcome FilePath
  -- `directory.mkdir(parents=True, exist_ok=True)`
  pub mkdir : FilePath → D → Outcome (Unit {0}) × D
  pub write_bytes : FilePath → Bytes → D → Outcome (Unit {0}) × D
  pub read_bytes : FilePath → D → Outcome Bytes
  -- `target.unlink(missing_ok=True)`
  pub unlink : FilePath → D → Outcome (Unit {0}) × D
  pub is_file : FilePath → D → Outcome Bool

-- The texts of a UUID and of a date, `f"{today:%Y/%m/%d}"`, and the digest of `hashlib`.
pub record Texts : Type 0 where
  pub uuid_text : Uuid → String
  pub date_text : Instant → String
  pub sha256_hex : Bytes → String

-- What the storage works on: the disk, and the generators of identifiers and of the time.
pub record Store (D E : Type 0) : Type 0 where
  pub disk : D
  pub env : E

unfoldable pub path_eq : FilePath → FilePath → Bool
path_eq [] [] = true
path_eq [] (y ∷ ys) = false
path_eq (x ∷ xs) [] = false
path_eq (x ∷ xs) (y ∷ ys) = str_eq x y && path_eq xs ys

-- `path.parents`, the furthest first.
unfoldable pub parents : FilePath → List FilePath
parents [] = []
parents (x ∷ xs) = [] ∷ map (λ (above : FilePath). x ∷ above) (parents xs)

-- `path.parent`
unfoldable pub parent : FilePath → FilePath
parent [] = []
parent (x ∷ []) = []
parent (x ∷ y ∷ ys) = x ∷ parent (y ∷ ys)

abbrev pub os_error : String
os_error = "OSError"

abbrev pub file_not_found : String
file_not_found = "FileNotFoundError"

-- `except StoragePathError`
unfoldable pub is_storage_path_error : Exn → Bool
is_storage_path_error (app e) = elim e.class [ ErrorClass.storage_path ↦ true | _ ↦ false ]
is_storage_path_error (foreign e) = false

abbrev pub outside_root : Exn
outside_root = app_exn storage_path "Resolved storage path lies outside the storage root."

module _ {D E F : Type 0} (disk : Disk D) (env : Environment E F) (texts : Texts)
    (root : FilePath) where
  abbrev pub on_disk : {A : Type 0} → (D → Outcome A × D) → Exec (Store D E) A
  on_disk f s = let (r, disk') = f s.disk in (r, record s { disk = disk' })

  -- A call that reads the disk only.
  abbrev pub from_disk : {A : Type 0} → (D → Outcome A) → Exec (Store D E) A
  from_disk f s = (f s.disk, s)

  abbrev pub on_env : {A : Type 0} → (E → A × E) → Exec (Store D E) A
  on_env f s = let (a, env') = f s.env in (ok a, record s { env = env' })

  -- `_resolve`, of what the path resolves to.
  unfoldable pub contained : FilePath → Outcome FilePath
  unfolding path_eq parents
  contained candidate =
      if not (path_eq candidate root) && not (elem path_eq root (parents candidate))
      then raised outside_root
      else ok candidate

  unfoldable pub resolve : String → Exec (Store D E) FilePath
  unfolding contained
  resolve key =
      from_disk (disk.resolve root key) >>= (λ candidate. from_disk (λ _. contained candidate))

  -- `except OSError as error: raise StorageError(…) from error`
  unfoldable pub as_storage_error : {A : Type 0} → String → Exn → Exec (Store D E) A
  as_storage_error message e =
      if isinstance e os_error then raise (app_exn storage_error message) else raise e

  -- `_write_bytes`
  unfoldable pub write_bytes : FilePath → Bytes → Exec (Store D E) (Unit {0})
  unfolding parent
  write_bytes destination bytes =
      on_disk (disk.mkdir (parent destination)) >> on_disk (disk.write_bytes destination bytes)

  -- The name has no separator, since it is made of a UUID and the suffix of a name.
  unfoldable pub save : Bytes → String → Exec (Store D E) StoredFile
  unfolding resolve write_bytes as_storage_error
  save bytes extension = do
    id ← on_env env.uuid4
    today ← on_env env.utcnow
    let stored_filename = texts.uuid_text id ⊕ extension
    let relative = texts.date_text today ⊕ ("/" ⊕ stored_filename)
    destination ← resolve relative
    try_except (write_bytes destination bytes)
        (as_storage_error "Failed to write the uploaded file to storage.")
    pure record {
      stored_filename = stored_filename;
      storage_path = relative;
      size = length bytes;
      checksum = texts.sha256_hex bytes;
    }

  -- `except FileNotFoundError` comes before `except OSError`.
  unfoldable pub as_read_error : Exn → Exec (Store D E) Bytes
  unfolding as_storage_error
  as_read_error e =
      if isinstance e file_not_found
      then raise (app_exn storage_path "The stored file no longer exists.")
      else as_storage_error "Failed to read the stored file." e

  unfoldable pub read : String → Exec (Store D E) Bytes
  unfolding resolve as_read_error
  read key = do target ← resolve key; try_except (from_disk (disk.read_bytes target)) as_read_error

  unfoldable pub delete : String → Exec (Store D E) (Unit {0})
  unfolding resolve as_storage_error
  delete key = do
    target ← resolve key
    try_except (on_disk (disk.unlink target)) (as_storage_error "Failed to delete the stored file.")

  unfoldable pub exists_at : Outcome FilePath → Exec (Store D E) Bool
  exists_at (ok target) = from_disk (disk.is_file target)
  exists_at (raised e) = if is_storage_path_error e then pure false else raise e

  unfoldable pub exists : String → Exec (Store D E) Bool
  unfolding resolve exists_at
  exists key s = exists_at (resolve key s).0 s

  -- `FileStorage`, as the endpoints and the worker use it.
  abbrev pub local_files : Files (Store D E)
  local_files = record { save = save; read = read }
