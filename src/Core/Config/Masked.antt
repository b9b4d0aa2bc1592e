-- ===== src/Core/Config/Masked.antt =====
-- `_mask_url_password` of app/core/config.py hides the password.
use async_ai_document_pipeli.Prelude.{
  ℕ, ◌≡◌, refl, ap, true, false, none, some, String, code, ◌==◌, ◌⊕◌, Each,
}
use Prim.Native.Char.{Char}
use async_ai_document_pipeli.Core.Config.{
  partition_at, rpartition_at, after_separator, partition_scheme, mask_url_password,
}

-- A text without a character.
abbrev pub Lacks : ℕ → String → Type 0
Lacks sep s = Each (λ c. (c == sep) ≡ false) s

partition_at-first :
    (sep : ℕ) (s : String) (c : Char) (t : String)
    → Lacks sep s
    → (code c == sep) ≡ true
    → partition_at sep (s ⊕ String.◌∷◌ c t) ≡ some (s, t)
unfolding partition_at
partition_at-first sep String.[] c t h e = rw (e, partition_at) refl
partition_at-first sep (String.◌∷◌ d s) c t h e =
    rw (h.0, partition_at-first sep s c t h.1 e, partition_at) refl

rpartition_at-none : (sep : ℕ) (s : String) → Lacks sep s → rpartition_at sep s ≡ none
unfolding rpartition_at
rpartition_at-none sep String.[] h = refl
rpartition_at-none sep (String.◌∷◌ d s) h =
    rw (rpartition_at-none sep s h.1, h.0, rpartition_at) refl

rpartition_at-last :
    (sep : ℕ) (s : String) (c : Char) (t : String)
    → Lacks sep t
    → (code c == sep) ≡ true
    → rpartition_at sep (s ⊕ String.◌∷◌ c t) ≡ some (s, t)
unfolding rpartition_at
rpartition_at-last sep String.[] c t h e = rw (rpartition_at-none sep t h, e, rpartition_at) refl
rpartition_at-last sep (String.◌∷◌ d s) c t h e =
    rw (rpartition_at-last sep s c t h e, rpartition_at) refl

after_separator-none :
    (d : Char) (s : String) → (code d == b':') ≡ false → after_separator (String.◌∷◌ d s) ≡ none
unfolding after_separator
after_separator-none d String.[] h = refl
after_separator-none d (String.◌∷◌ b String.[]) h = refl
after_separator-none d (String.◌∷◌ b (String.◌∷◌ c s)) h = rw h refl

partition_scheme-first :
    (scheme remainder : String)
    → Lacks b':' scheme
    → partition_scheme (scheme ⊕ ("://" ⊕ remainder)) ≡ some (scheme, remainder)
unfolding partition_scheme after_separator
partition_scheme-first String.[] remainder h = refl
partition_scheme-first (String.◌∷◌ d s) remainder h =
    rw
      (
        after_separator-none d (s ⊕ ("://" ⊕ remainder)) h.0,
        partition_scheme-first s remainder h.1,
        partition_scheme,
      )
      refl

assoc : (s t u : String) → s ⊕ (t ⊕ u) ≡ (s ⊕ t) ⊕ u
assoc String.[] t u = refl
assoc (String.◌∷◌ c s) t u = ap (λ (rest : String). String.◌∷◌ c rest) (assoc s t u)

mask-at :
    (url scheme remainder credentials host user password : String)
    → partition_scheme url ≡ some (scheme, remainder)
    → rpartition_at b'@' remainder ≡ some (credentials, host)
    → partition_at b':' credentials ≡ some (user, password)
    → mask_url_password url ≡ scheme ⊕ ("://" ⊕ (user ⊕ (":***@" ⊕ host)))
unfolding mask_url_password
mask-at url scheme remainder credentials host user password a b c =
    rw (a, b, c, mask_url_password) refl

-- A connection URL with a password.
abbrev pub url_with : String → String → String → String → String
url_with scheme user password host = scheme ⊕ ("://" ⊕ (user ⊕ (":" ⊕ (password ⊕ ("@" ⊕ host)))))

-- A connection URL with a password, whose scheme and user name have no colon and whose host has
-- no `@`, is shown with `***` in place of the whole password, whatever that holds, and is
-- otherwise unchanged; so what is shown tells nothing of the password, not even its length.
pub mask_url_password-hides :
    (scheme user password host : String)
    → Lacks b':' scheme
    → Lacks b':' user
    → Lacks b'@' host
    → mask_url_password (url_with scheme user password host) ≡ url_with scheme user "***" host
unfolding mask_url_password
mask_url_password-hides scheme user password host s u h =
    let credentials = user ⊕ (":" ⊕ password) in
    let remainder = user ⊕ (":" ⊕ (password ⊕ ("@" ⊕ host))) in
    let split : remainder ≡ credentials ⊕ ("@" ⊕ host) = assoc user (":" ⊕ password) ("@" ⊕ host) in
    mask-at (url_with scheme user password host) scheme remainder credentials host user password
      (partition_scheme-first scheme remainder s)
      (rw split (rpartition_at-last b'@' credentials "@" host h refl))
      (partition_at-first b':' user ":" password u refl)
