-- ===== src/Services/FileStorage/Contained.antt =====
-- `LocalFileStorage` of app/services/file_storage.py reaches nothing outside of its root.
use async_ai_document_pipeli.Prelude.{
  ◌≡◌, refl, sym, ap, ◌∙◌, ◌⊎◌, inl, inr, true, false, Bool-cases, List, [], ◌∷◌, ◌++◌, map, String,
  str_eq, eq_iff, eq_refl, elem,
}
use async_ai_document_pipeli.Core.Exec.{ok, raised, try_except}
use async_ai_document_pipeli.Platform.{Environment}
use async_ai_document_pipeli.Services.FileStorage.{
  FilePath, Disk, Texts, Store, path_eq, parents, contained, outside_root, on_disk, from_disk,
  resolve, read, delete, exists, exists_at, is_storage_path_error, as_read_error, as_storage_error,
}

path_eq-≡ : (a b : FilePath) → path_eq a b ≡ true → a ≡ b
unfolding path_eq
path_eq-≡ [] [] h = refl
path_eq-≡ [] (y ∷ ys) h = cc
path_eq-≡ (x ∷ xs) [] h = cc
path_eq-≡ (x ∷ xs) (y ∷ ys) h = elim (Bool-cases (str_eq x y)) [
  | inl same ↦
      let head : x ≡ y = (eq_iff x y).0 same in
      let tail : xs ≡ ys = path_eq-≡ xs ys (rw same at h) in λ i. head i ∷ tail i
  | inr other ↦ let absurd_h : false ≡ true = rw other at h in cc
]

pub path_eq_refl : (a : FilePath) → path_eq a a ≡ true
unfolding path_eq
path_eq_refl [] = refl
path_eq_refl (x ∷ xs) = rw (eq_refl x, path_eq_refl xs) refl

-- A path that is the root or below it.
abbrev pub Below : FilePath → FilePath → Type 0
Below root path = (rest : FilePath) × (path ≡ root ++ rest)

abbrev below : String → FilePath → FilePath
below x path = x ∷ path

-- A longer root among paths that begin with a component.
elem-below :
    (r x : String) (rs : FilePath) (paths : List FilePath)
    → elem path_eq (r ∷ rs) (map (below x) paths) ≡ true
    → (x ≡ r) × (elem path_eq rs paths ≡ true)
unfolding path_eq
elem-below r x rs [] h = cc
elem-below r x rs (path ∷ paths) h = elim (Bool-cases (str_eq r x)) [
  | inl same ↦
      let x_is : x ≡ r = sym ((eq_iff r x).0 same) in
      elim (Bool-cases (path_eq rs path)) [
        | inl here ↦ (x_is, rw (here, elem) refl)
        | inr later ↦
            (x_is, rw (later, elem) (elem-below r x rs paths (rw (elem, same, later) at h)).1)
      ]
  | inr other ↦
      let rest : elem path_eq (r ∷ rs) (map (below x) paths) ≡ true = rw (elem, other) at h in
      let (x_is, found) = elem-below r x rs paths rest in
      let same : str_eq r x ≡ true = rw x_is (eq_refl r) in cc
]

parents-Below : (root path : FilePath) → elem path_eq root (parents path) ≡ true → Below root path
unfolding path_eq parents
parents-Below root [] h = cc
parents-Below [] (x ∷ xs) h = (x ∷ xs, refl)
parents-Below (r ∷ rs) (x ∷ xs) h =
    let (x_is, found) = elem-below r x rs (parents xs) h in
    let (rest, path_is) = parents-Below rs xs found in (rest, λ i. x_is i ∷ path_is i)

below-elem :
    (r : String) (rs : FilePath) (paths : List FilePath)
    → elem path_eq rs paths ≡ true
    → elem path_eq (r ∷ rs) (map (below r) paths) ≡ true
unfolding path_eq
below-elem r rs [] h = cc
below-elem r rs (path ∷ paths) h = elim (Bool-cases (path_eq rs path)) [
  | inl here ↦ rw (elem, eq_refl r, here) refl
  | inr later ↦ rw (elem, eq_refl r, later) (below-elem r rs paths (rw (elem, later) at h))
]

Below-parents :
    (root : FilePath) (x : String) (xs : FilePath)
    → elem path_eq root (parents (root ++ (x ∷ xs))) ≡ true
unfolding path_eq parents
Below-parents [] x xs = refl
Below-parents (r ∷ rs) x xs = below-elem r rs (parents (rs ++ (x ∷ xs))) (Below-parents rs x xs)

append_nil : (path : FilePath) → path ++ [] ≡ path
append_nil [] = refl
append_nil (x ∷ xs) = ap (λ (rest : FilePath). x ∷ rest) (append_nil xs)

not-Below :
    (root candidate : FilePath)
    → path_eq candidate root ≡ false
    → elem path_eq root (parents candidate) ≡ false
    → ¬ Below root candidate
not-Below root candidate other outside ([], path_is) =
    let same : path_eq candidate root ≡ true = rw (path_is, append_nil root) (path_eq_refl root) in
    cc
not-Below root candidate other outside (x ∷ xs, path_is) =
    let under : elem path_eq root (parents candidate) ≡ true =
      rw path_is (Below-parents root x xs) in
    cc

module _ {D E F : Type 0} (disk : Disk D) (env : Environment E F) (texts : Texts)
    (root : FilePath) where
  pub contained-Below :
      (candidate : FilePath)
      → (Below root candidate × (contained disk env texts root candidate ≡ ok candidate))
        ⊎ ((¬ Below root candidate)
            × (contained disk env texts root candidate ≡ raised outside_root))
  unfolding contained
  contained-Below candidate = elim (Bool-cases (path_eq candidate root)) [
    | inl is_root ↦ inl (
      ([], path_eq-≡ candidate root is_root ∙ sym (append_nil root)),
      rw (is_root, contained) refl,
    )
    | inr other ↦ elim (Bool-cases (elem path_eq root (parents candidate))) [
      | inl under ↦ inl (parents-Below root candidate under, rw (other, under, contained) refl)
      | inr outside ↦
          inr (not-Below root candidate other outside, rw (other, outside, contained) refl)
    ]
  ]

  -- A path inside of the root is worked on, as it was resolved.
  pub record Reached (key : String) (path : FilePath) (s : Store D E) : Type 0 where
    pub read_is :
        read disk env texts root key s
        ≡ try_except
            (from_disk disk env texts root (disk.read_bytes path))
            (as_read_error disk env texts root)
            s
    pub delete_is :
        delete disk env texts root key s
        ≡ try_except
            (on_disk disk env texts root (disk.unlink path))
            (as_storage_error disk env texts root "Failed to delete the stored file.")
            s
    pub exists_is : exists disk env texts root key s ≡ (disk.is_file path s.disk, s)

  -- A path outside of it is refused: the disk is not asked for it, and nothing changes.
  pub record Refused (key : String) (s : Store D E) : Type 0 where
    pub read_is : read disk env texts root key s ≡ (raised outside_root, s)
    pub delete_is : delete disk env texts root key s ≡ (raised outside_root, s)
    pub exists_is : exists disk env texts root key s ≡ (ok false, s)

  -- Where a key resolves to a path, links followed, `read`, `delete` and `exists` work on that
  -- path if it is the root or below it. If it is not, `read` and `delete` raise
  -- `StoragePathError` and `exists` returns false, and none of them has reached or changed the
  -- disk.
  pub storage-contained :
      (key : String) (path : FilePath) (s : Store D E)
      → disk.resolve root key s.disk ≡ ok path
      → (Below root path × Reached key path s) ⊎ ((¬ Below root path) × Refused key s)
  unfolding read delete exists resolve exists_at is_storage_path_error
  storage-contained key path s h = elim (contained-Below path) [
    | inl (under, inside) ↦ inl (
      under,
      record {
        read_is = rw (h, inside) refl;
        delete_is = rw (h, inside) refl;
        exists_is = rw (h, inside) refl;
      },
    )
    | inr (outside, refused) ↦ inr (
      outside,
      record {
        read_is = rw (h, refused) refl;
        delete_is = rw (h, refused) refl;
        exists_is = rw (h, refused) refl;
      },
    )
  ]
