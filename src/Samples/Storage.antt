-- ===== src/Samples/Storage.antt =====
-- A disk in memory, and a file saved on it.
use async_ai_document_pipeli.Prelude.{
  ◌≡◌, refl, true, false, Option, none, some, [], ◌∷◌, ◌++◌, str_eq, if◌then◌else◌, show_int,
}
use async_ai_document_pipeli.Core.Exec.{Outcome, ok, raised}
use async_ai_document_pipeli.Core.Errors.{Exn, foreign}
use async_ai_document_pipeli.Db.Models.{StoredFile}
use async_ai_document_pipeli.Platform.{Bytes}
use async_ai_document_pipeli.Services.FileStorage.{
  FilePath, Disk, Texts, Store, path_eq, parents, contained, resolve, save, delete,
}
use async_ai_document_pipeli.Services.FileStorage.Contained.{path_eq_refl}
use async_ai_document_pipeli.Services.FileStorage.Restored.{DiskLaws}
use async_ai_document_pipeli.Samples.Memory.{Clock, clock}

-- The content at each path.
abbrev pub FilesAt : Type 0
FilesAt = FilePath → Option Bytes

abbrev missing : Exn
missing = foreign (record {
  type_name = "FileNotFoundError";
  classes = "FileNotFoundError" ∷ "OSError" ∷ [];
  text = "No such file or directory";
})

abbrev content_or_missing : Option Bytes → Outcome Bytes
content_or_missing none = raised missing
content_or_missing (some bytes) = ok bytes

-- A key is one component, but for the link `up`, which leads out of the root.
abbrev pub disk_in_memory : Disk FilesAt
disk_in_memory = record {
  resolve = λ root key d. ok (if str_eq key "up" then "etc" ∷ [] else root ++ key ∷ []);
  mkdir = λ path d. (ok tt, d);
  write_bytes = λ path bytes d. (ok tt, λ q. if path_eq path q then some bytes else d q);
  read_bytes = λ path d. content_or_missing (d path);
  unlink = λ path d. (ok tt, λ q. if path_eq path q then none else d q);
  is_file = λ path d. ok (elim (d path) [ none ↦ false | some bytes ↦ true ]);
}

pub disk_in_memory_laws : DiskLaws disk_in_memory
disk_in_memory_laws = record {
  written = λ path bytes d h. rw (path_eq_refl path) refl;
  write_keeps_links = λ path bytes root key d h. refl;
  mkdir_keeps_links = λ path root key d h. refl;
  removed = λ path d h. rw (path_eq_refl path) refl;
  unlink_keeps_links = λ path root key d h r. r;
}

abbrev pub plain_texts : Texts
plain_texts = record { uuid_text = show_int; date_text = λ _. "2026"; sha256_hex = λ _. "sum" }

abbrev pub root : FilePath
root = "data" ∷ []

abbrev pub empty_disk : Store FilesAt Clock
empty_disk = record { disk = λ _. none; env = record { now = 5; fresh = 7 } }

abbrev pub saved_file : StoredFile
saved_file = record {
  stored_filename = "7.txt";
  storage_path = "2026/7.txt";
  size = 1;
  checksum = "sum";
}

pub saved :
    (save disk_in_memory clock plain_texts root (104 ∷ []) ".txt" empty_disk).0 ≡ ok saved_file
unfolding save resolve contained path_eq parents show_int
saved = refl

-- The disk after the file is saved.
abbrev pub saved_disk : Store FilesAt Clock
saved_disk = (save disk_in_memory clock plain_texts root (104 ∷ []) ".txt" empty_disk).1

pub deleted : (delete disk_in_memory clock plain_texts root "2026/7.txt" saved_disk).0 ≡ ok tt
unfolding save delete resolve contained path_eq parents show_int
deleted = refl
