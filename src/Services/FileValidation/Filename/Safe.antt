-- ===== src/Services/FileValidation/Filename/Safe.antt =====
-- What `sanitize_filename` of app/services/file_validation.py promises of every name that it returns.
use async_ai_document_pipeli.Prelude.{
  ℕ, subst, ◌==◌, ◌-◌, ◌≤◌, ◌<◌, ◌≡◌, refl, inl, inr, true, false, Bool-cases, Option-cases, Option,
  none, some, String, code, ltb, ◌⊕◌, len, prefix, len-prefix, len-⊕, is_empty, Each, Each-prefix,
  Each-⊕, Each-strip_where, arith, strip_where,
}
use async_ai_document_pipeli.Core.Paths.{path_name, last_dot}
use async_ai_document_pipeli.Platform.{Parsers}
use async_ai_document_pipeli.Services.FileValidation.Filename.{
  is_safe, is_separator, is_edge, windows_name, replace_unsafe, squeeze, Run, outside, one, many,
  shorten, finish, sanitize_filename, max_filename_length, fallback_filename,
}

-- A character that the display and the database may hold.
abbrev pub IsSafe : ℕ → Type 0
IsSafe c = is_safe c ≡ true

replace_unsafe-IsSafe : (s : String) → Each IsSafe (replace_unsafe s)
unfolding replace_unsafe
replace_unsafe-IsSafe String.[] = tt
replace_unsafe-IsSafe (String.◌∷◌ c s) = elim (Bool-cases (is_safe (code c))) [
  | inl safe ↦ rw safe (safe, replace_unsafe-IsSafe s)
  | inr other ↦ rw other (refl, replace_unsafe-IsSafe s)
]

-- What a run has read and not written.
abbrev Pending : Run → Type 0
Pending outside = Unit
Pending (one separator) = Each IsSafe separator
Pending many = Unit

squeeze-IsSafe :
    (run : Run) (s : String) → Pending run → Each IsSafe s → Each IsSafe (squeeze run s)
unfolding squeeze
squeeze-IsSafe outside String.[] p h = tt
squeeze-IsSafe (one separator) String.[] p h = p
squeeze-IsSafe many String.[] p h = (refl, tt)
squeeze-IsSafe outside (String.◌∷◌ c s) p h = elim (Bool-cases (is_separator (code c))) [
  | inl e ↦ rw (e, squeeze) (squeeze-IsSafe (one (String.◌∷◌ c String.[])) s (h.0, tt) h.1)
  | inr e ↦ rw (e, squeeze) (h.0, squeeze-IsSafe outside s tt h.1)
]
squeeze-IsSafe (one separator) (String.◌∷◌ c s) p h = elim (Bool-cases (is_separator (code c))) [
  | inl e ↦ rw (e, squeeze) (squeeze-IsSafe many s tt h.1)
  | inr e ↦
      rw (e, squeeze)
        (Each-⊕ IsSafe separator (String.◌∷◌ c (squeeze outside s)) p
          (h.0, squeeze-IsSafe outside s tt h.1))
]
squeeze-IsSafe many (String.◌∷◌ c s) p h = elim (Bool-cases (is_separator (code c))) [
  | inl e ↦ rw (e, squeeze) (squeeze-IsSafe many s tt h.1)
  | inr e ↦ rw (e, squeeze) (refl, (h.0, squeeze-IsSafe outside s tt h.1))
]

-- A name split at its last dot: what is before it, and the rest.
Each-last_dot :
    (P : ℕ → Type 0) (s : String)
    → Each P s
    → (stem extension : String) → last_dot s ≡ some (stem, extension)
    → Each P stem × Each P extension
unfolding last_dot
Each-last_dot P String.[] h stem extension e = cc
Each-last_dot P (String.◌∷◌ c s) h stem extension e = elim (Option-cases (last_dot s)) [
  | inr ((before, rest), found) ↦
      let (hb, hr) = Each-last_dot P s h.1 before rest found in
      let same : ◌≡◌ {A = Option (String × String)} (some (String.◌∷◌ c before, rest))
          (some (stem, extension)) =
        rw found at e in
      let stem_is : String.◌∷◌ c before ≡ stem = cc in
      let rest_is : rest ≡ extension = cc in
      (subst (Each P) stem_is (h.0, hb), subst (Each P) rest_is hr)
  | inl absent ↦ elim (Bool-cases (code c == 0x2E)) [
    | inl dot ↦
        let same : ◌≡◌ {A = Option (String × String)} (some ("", String.◌∷◌ c s))
            (some (stem, extension)) =
          rw (absent, dot) at e in
        let stem_is : "" ≡ stem = cc in
        let rest_is : String.◌∷◌ c s ≡ extension = cc in
        (subst (Each P) stem_is tt, subst (Each P) rest_is h)
    | inr plain ↦
        let same : ◌≡◌ {A = Option (String × String)} none (some (stem, extension)) =
          rw (absent, plain) at e in
        cc
  ]
]

-- What a returned name is.
abbrev pub Sanitized : String → Type 0
Sanitized name = (0 < len name) × (len name ≤ max_filename_length) × Each IsSafe name

len-full : (s : String) → is_empty s ≡ false → 0 < len s
len-full String.[] e = cc
len-full (String.◌∷◌ c s) e = omega arith

cut-Sanitized :
    (name : String)
    → max_filename_length < len name
    → Each IsSafe name
    → Sanitized (prefix max_filename_length name)
cut-Sanitized name long safe = (
  omega (arith, len-prefix max_filename_length name),
  omega (arith, len-prefix max_filename_length name),
  Each-prefix IsSafe max_filename_length name safe,
)

-- A stem cut to the room that a short extension leaves.
joined-Sanitized :
    (stem extension : String)
    → 0 < len stem
    → len extension ≤ 11
    → Each IsSafe stem
    → Each IsSafe extension
    → Sanitized (prefix (max_filename_length - len extension) stem ⊕ extension)
joined-Sanitized stem extension filled short safe_stem safe_extension =
    let room = max_filename_length - len extension in
    (
      omega (arith, len-⊕ (prefix room stem) extension, len-prefix room stem),
      omega (arith, len-⊕ (prefix room stem) extension, len-prefix room stem),
      Each-⊕ IsSafe (prefix room stem) extension (Each-prefix IsSafe room stem safe_stem)
          safe_extension,
    )

shorten-Sanitized :
    (name : String) → max_filename_length < len name → Each IsSafe name → Sanitized (shorten name)
unfolding shorten
shorten-Sanitized name long safe = elim (Option-cases (last_dot name)) [
  | inl absent ↦ rw (absent, shorten) (cut-Sanitized name long safe)
  | inr ((stem, extension), found) ↦ elim (Bool-cases (is_empty stem)) [
    | inl bare ↦ rw (found, bare, shorten) (cut-Sanitized name long safe)
    | inr filled ↦ elim (Bool-cases (ltb 11 (len extension))) [
      | inl plain ↦ rw (found, filled, plain, shorten) (cut-Sanitized name long safe)
      | inr short ↦
          let (safe_stem, safe_extension) = Each-last_dot IsSafe name safe stem extension found in
          rw (found, filled, short, shorten)
            (joined-Sanitized stem extension (len-full stem filled) (ground arith) safe_stem
              safe_extension)
    ]
  ]
]

fallback-Sanitized : Sanitized fallback_filename
fallback-Sanitized =
    (omega arith, omega arith, (refl, (refl, (refl, (refl, (refl, (refl, (refl, (refl, tt)))))))))

finish-Sanitized : (name : String) → Each IsSafe name → Sanitized (finish name)
unfolding finish
finish-Sanitized name safe = elim (Bool-cases (is_empty name)) [
  | inl empty ↦ rw (empty, finish) fallback-Sanitized
  | inr full ↦ elim (Bool-cases (ltb max_filename_length (len name))) [
    | inl long ↦ rw (full, long, finish) (shorten-Sanitized name (ground arith) safe)
    | inr short ↦ rw (full, short, finish) (len-full name full, ground arith, safe)
  ]
]

pub sanitize_filename-Sanitized :
    (parsers : Parsers) (filename : Option String) → Sanitized (sanitize_filename parsers filename)
unfolding sanitize_filename
sanitize_filename-Sanitized parsers none = fallback-Sanitized
sanitize_filename-Sanitized parsers (some filename) = elim (Bool-cases (is_empty filename)) [
  | inl empty ↦ rw (empty, sanitize_filename) fallback-Sanitized
  | inr full ↦
      let plain = parsers.ascii_fold (windows_name (path_name filename)) in
      let stripped = strip_where is_edge (replace_unsafe plain) in
      rw (full, sanitize_filename)
        (finish-Sanitized (squeeze outside stripped) (
          squeeze-IsSafe outside stripped tt
            (Each-strip_where IsSafe is_edge (replace_unsafe plain) (replace_unsafe-IsSafe plain))))
]
