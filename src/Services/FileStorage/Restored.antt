-- ===== src/Services/FileStorage/Restored.antt =====
-- A file that `LocalFileStorage` of app/services/file_storage.py has saved can be read again, and one that
-- it has deleted is gone.
use async_ai_document_pipeli.Prelude.{
  ◌≡◌, refl, sym, ap, subst, ◌∙◌, false, String, ◌⊕◌, length, arith,
}
use async_ai_document_pipeli.Core.Errors.{Exn}
use async_ai_document_pipeli.Core.Exec.{Outcome, ok, raised, continue, pure, ◌>>◌, try_except}
use async_ai_document_pipeli.Core.Exec.Inversion.{
  >>=-ok, ok-injective, try_except-ok, returned, handled,
}
use async_ai_document_pipeli.Db.Models.{StoredFile}
use async_ai_document_pipeli.Platform.{Bytes, Environment}
use async_ai_document_pipeli.Services.FileStorage.{
  FilePath, Disk, Texts, Store, parent, contained, on_disk, resolve, write_bytes, save, read,
  delete, exists, exists_at, as_storage_error,
}

-- What the storage relies on of the disk, as no other process writes to it meanwhile: a file that was
-- written has that content, one that was removed is none, and neither makes a symbolic link, so that
-- a key resolves as before.
pub record DiskLaws {D : Type 0} (disk : Disk D) : Type 0 where
  pub written :
      (path : FilePath) (bytes : Bytes) (d : D)
      → (disk.write_bytes path bytes d).0 ≡ ok tt
      → disk.read_bytes path (disk.write_bytes path bytes d).1 ≡ ok bytes
  pub write_keeps_links :
      (path : FilePath) (bytes : Bytes) (root : FilePath) (key : String) (d : D)
      → (disk.write_bytes path bytes d).0 ≡ ok tt
      → disk.resolve root key (disk.write_bytes path bytes d).1 ≡ disk.resolve root key d
  -- Directories are made along a resolved path, where there is no link.
  pub mkdir_keeps_links :
      (path root : FilePath) (key : String) (d : D)
      → (disk.mkdir path d).0 ≡ ok tt
      → disk.resolve root key (disk.mkdir path d).1 ≡ disk.resolve root key d
  pub removed :
      (path : FilePath) (d : D)
      → (disk.unlink path d).0 ≡ ok tt
      → disk.is_file path (disk.unlink path d).1 ≡ ok false
  pub unlink_keeps_links :
      (path root : FilePath) (key : String) (d : D)
      → (disk.unlink path d).0 ≡ ok tt
      → disk.resolve root key d ≡ ok path
      → disk.resolve root key (disk.unlink path d).1 ≡ ok path

abbrev write_failed : String
write_failed = "Failed to write the uploaded file to storage."

module _ {D E F : Type 0} (disk : Disk D) (env : Environment E F) (texts : Texts)
    (root : FilePath) where
  abbrev target_of : String → D → Outcome FilePath
  target_of key d = elim (disk.resolve root key d) [
    | raised e ↦ raised e
    | ok path ↦ contained disk env texts root path
  ]

  resolve-is :
      (key : String) (s : Store D E) → resolve disk env texts root key s ≡ (target_of key s.disk, s)
  unfolding resolve
  resolve-is key s = ground arith

  read-at :
      (key : String) (path : FilePath) (bytes : Bytes) (s : Store D E)
      → target_of key s.disk ≡ ok path
      → disk.read_bytes path s.disk ≡ ok bytes
      → read disk env texts root key s ≡ (ok bytes, s)
  unfolding read
  read-at key path bytes s target content = rw (resolve-is key s, target, continue, content) refl

  as_storage_error-raises :
      {A : Type 0} (message : String) (e : Exn) (s : Store D E) (a : A)
      → ¬ ((as_storage_error disk env texts root message e s).0 ≡ ok a)
  unfolding as_storage_error
  as_storage_error-raises message e s a h = ground arith

  module _ (laws : DiskLaws disk) where
    -- What `_write_bytes` leaves: the content at the path, and each key where it was.
    abbrev Written : FilePath → Bytes → Store D E → Store D E → Type 0
    Written path bytes before after =
        (disk.read_bytes path after.disk ≡ ok bytes)
        × ((key : String) → disk.resolve root key after.disk ≡ disk.resolve root key before.disk)

    write_bytes-Written :
        (path : FilePath) (bytes : Bytes) (s : Store D E) (done : Unit {0})
        → (write_bytes disk env texts root path bytes s).0 ≡ ok done
        → Written path bytes s (write_bytes disk env texts root path bytes s).1
    unfolding write_bytes
    write_bytes-Written path bytes s tt h =
        let (_, made, rest, after) =
          >>=-ok (on_disk disk env texts root (disk.mkdir (parent path)))
            (λ _. on_disk disk env texts root (disk.write_bytes path bytes)) s h in
        let d = (disk.mkdir (parent path) s.disk).1 in
        rw after (
          laws.written path bytes d rest,
          λ key.
              laws.write_keeps_links path bytes root key d rest
              ∙ laws.mkdir_keeps_links (parent path) root key s.disk made,
        )

    abbrev file_of : String → String → Bytes → StoredFile
    file_of name relative bytes = record {
      stored_filename = name;
      storage_path = relative;
      size = length bytes;
      checksum = texts.sha256_hex bytes;
    }

    retarget :
        (key : String) (d d' : D)
        → disk.resolve root key d ≡ disk.resolve root key d'
        → target_of key d ≡ target_of key d'
    retarget key d d' same = rw (target_of, same) refl

    -- A write that was tried and returned has returned itself.
    write-returned :
        (path : FilePath) (bytes : Bytes) (s : Store D E) (done : Unit {0})
        → (try_except
            (write_bytes disk env texts root path bytes)
            (as_storage_error disk env texts root write_failed)
            s).0
          ≡ ok done
        → ((write_bytes disk env texts root path bytes s).0 ≡ ok done)
          × (try_except
                (write_bytes disk env texts root path bytes)
                (as_storage_error disk env texts root write_failed)
                s
              ≡ (ok done, (write_bytes disk env texts root path bytes s).1))
    write-returned path bytes s done h =
        let failed = as_storage_error disk env texts root write_failed in
        elim (try_except-ok (write_bytes disk env texts root path bytes) failed s h) [
          | returned was after ↦ (was, after)
          | handled e refused caught after ↦ absurd (
              as_storage_error-raises write_failed e
                (write_bytes disk env texts root path bytes s).1 done caught)
        ]

    -- If `save` returns a file, its size and its digest are those of the bytes, and `read` of its
    -- storage path then returns the same bytes and changes nothing, as long as the disk is used
    -- by no one else.
    pub save-read :
        (bytes : Bytes) (extension : String) (s : Store D E) (stored : StoredFile)
        → (save disk env texts root bytes extension s).0 ≡ ok stored
        → (stored.size ≡ length bytes)
          × (stored.checksum ≡ texts.sha256_hex bytes)
          × (read disk env texts root stored.storage_path
                (save disk env texts root bytes extension s).1
              ≡ (ok bytes, (save disk env texts root bytes extension s).1))
    unfolding save read
    save-read bytes extension s stored h =
        let drawn = env.uuid4 s.env in
        let read_clock = env.utcnow drawn.1 in
        let name = texts.uuid_text drawn.0 ⊕ extension in
        let relative = texts.date_text read_clock.0 ⊕ ("/" ⊕ name) in
        let v : Store D E = record { disk = s.disk; env = read_clock.1 } in
        let file = file_of name relative bytes in
        let failed = as_storage_error disk env texts root write_failed in
        let (path, resolved, rest, after) =
          >>=-ok (resolve disk env texts root relative)
            (λ path. try_except (write_bytes disk env texts root path bytes) failed >> pure file) v
            h in
        let v' = (resolve disk env texts root relative v).1 in
        let same_v : v' ≡ v =
          ap (λ (r : Outcome FilePath × Store D E). r.1) (resolve-is relative v) in
        let target : target_of relative v.disk ≡ ok path =
          sym (ap (λ (r : Outcome FilePath × Store D E). r.0) (resolve-is relative v)) ∙ resolved in
        let (done, wrote, same, after') =
          >>=-ok (try_except (write_bytes disk env texts root path bytes) failed) (λ _. pure file)
            v' rest in
        let u = (write_bytes disk env texts root path bytes v').1 in
        let (returned_done, ends) = write-returned path bytes v' done wrote in
        let (content, links) = write_bytes-Written path bytes v' done returned_done in
        let stays : target_of relative u.disk ≡ ok path =
          retarget relative u.disk v'.disk (links relative)
          ∙ ap (λ (t : Store D E). target_of relative t.disk) same_v
          ∙ target in
        let final : save disk env texts root bytes extension s ≡ (ok file, u) =
          after ∙ after' ∙ ap (λ (r : Outcome (Unit {0}) × Store D E). (ok file, r.1)) ends in
        let is_file : file ≡ stored = ok-injective same in
        subst
          (λ (f : StoredFile).
            (f.size ≡ length bytes)
            × (f.checksum ≡ texts.sha256_hex bytes)
            × (read disk env texts root f.storage_path
                  (save disk env texts root bytes extension s).1
                ≡ (ok bytes, (save disk env texts root bytes extension s).1)))
          is_file
          (
            refl,
            refl,
            subst
                (λ (r : Outcome StoredFile × Store D E).
                  read disk env texts root relative r.1 ≡ (ok bytes, r.1))
                (sym final) (read-at relative path bytes u stays content),
          )

    exists-at :
        (key : String) (path : FilePath) (s : Store D E)
        → target_of key s.disk ≡ ok path
        → disk.is_file path s.disk ≡ ok false
        → exists disk env texts root key s ≡ (ok false, s)
    unfolding exists exists_at
    exists-at key path s target gone = rw (resolve-is key s, target, exists_at, gone) refl

    target-path :
        (key : String) (path : FilePath) (d : D)
        → target_of key d ≡ ok path
        → (disk.resolve root key d ≡ ok path) × (contained disk env texts root path ≡ ok path)
    unfolding contained
    target-path key path d h = ground arith

    unlink-returned :
        (path : FilePath) (s : Store D E) (done : Unit {0})
        → (try_except
            (on_disk disk env texts root (disk.unlink path))
            (as_storage_error disk env texts root "Failed to delete the stored file.")
            s).0
          ≡ ok done
        → ((disk.unlink path s.disk).0 ≡ ok tt)
          × (try_except
                (on_disk disk env texts root (disk.unlink path))
                (as_storage_error disk env texts root "Failed to delete the stored file.")
                s
              ≡ (ok tt, record s { disk = (disk.unlink path s.disk).1 }))
    unlink-returned path s tt h =
        let failed = as_storage_error disk env texts root "Failed to delete the stored file." in
        elim (try_except-ok (on_disk disk env texts root (disk.unlink path)) failed s h) [
          | returned was after ↦ (was, after)
          | handled e refused caught after ↦ absurd (
              as_storage_error-raises "Failed to delete the stored file." e
                (record s { disk = (disk.unlink path s.disk).1 }) tt caught)
        ]

    -- If `delete` returns, whether or not there was a file, then `exists` of the same key is
    -- false and changes nothing, as long as the disk is used by no one else.
    pub delete-exists :
        (key : String) (s : Store D E) (done : Unit {0})
        → (delete disk env texts root key s).0 ≡ ok done
        → exists disk env texts root key (delete disk env texts root key s).1
          ≡ (ok false, (delete disk env texts root key s).1)
    unfolding delete
    delete-exists key s done h =
        let failed = as_storage_error disk env texts root "Failed to delete the stored file." in
        let (path, resolved, rest, after) =
          >>=-ok (resolve disk env texts root key)
            (λ path. try_except (on_disk disk env texts root (disk.unlink path)) failed) s h in
        let v = (resolve disk env texts root key s).1 in
        let same_v : v ≡ s = ap (λ (r : Outcome FilePath × Store D E). r.1) (resolve-is key s) in
        let target : target_of key s.disk ≡ ok path =
          sym (ap (λ (r : Outcome FilePath × Store D E). r.0) (resolve-is key s)) ∙ resolved in
        let (removed, ends) = unlink-returned path v done rest in
        let u : Store D E = record v { disk = (disk.unlink path v.disk).1 } in
        let target_v : target_of key v.disk ≡ ok path =
          subst (λ (t : Store D E). target_of key t.disk ≡ ok path) (sym same_v) target in
        let (was, inside) = target-path key path v.disk target_v in
        let stays : target_of key u.disk ≡ ok path =
          rw (target_of, laws.unlink_keeps_links path root key v.disk removed was) inside in
        rw (after, ends) (exists-at key path u stays (laws.removed path v.disk removed))
