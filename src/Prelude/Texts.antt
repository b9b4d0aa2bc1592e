-- ===== src/Prelude/Texts.antt =====
-- Python's `str` as the native text, walked by its characters.
use Prim.Native.Nat.{ℕ, zero, suc, ◌+◌, ◌/◌, ◌%◌, min}
use Prim.Native.Char.{Char, code}
use mathlib.Core.Bool.{Bool, true, false, ◌&&◌, ◌||◌}
use text.Mathlib.Text.{◌==◌ as str_eq}
use mathlib.Core.List.{List, [], ◌∷◌}
use async_ai_document_pipeli.Prelude.Tests.{◌==◌, ltb, if◌then◌else◌}
use Prim.Native.String.{String}
use mathlib.Core.Path.{◌≡◌, refl}
use native.Mathlib.Omega.{arith}

-- len(s)
abbrev pub len : String → ℕ
len String.[] = 0
len (String.◌∷◌ c s) = suc (len s)

-- s[:n]
abbrev pub prefix : ℕ → String → String
prefix zero s = String.[]
prefix (suc n) String.[] = String.[]
prefix (suc n) (String.◌∷◌ c s) = String.◌∷◌ c (prefix n s)

-- s + t, by the characters of `s`.
infixr 66 ◌⊕◌
abbrev pub ◌⊕◌ : String → String → String
String.[] ⊕ t = t
String.◌∷◌ c s ⊕ t = String.◌∷◌ c (s ⊕ t)

pub len-⊕ : (s t : String) → len (s ⊕ t) ≡ len s + len t
len-⊕ String.[] t = omega arith
len-⊕ (String.◌∷◌ c s) t = omega (arith, len-⊕ s t)

pub len-prefix : (n : ℕ) (s : String) → len (prefix n s) ≡ min n (len s)
len-prefix zero s = omega arith
len-prefix (suc n) String.[] = omega arith
len-prefix (suc n) (String.◌∷◌ c s) = omega (arith, len-prefix n s)

abbrev pub is_empty : String → Bool
is_empty String.[] = true
is_empty (String.◌∷◌ c s) = false

-- A character in front of the first of some texts.
abbrev pub onto_first : Char → List String → List String
onto_first c [] = (String.◌∷◌ c String.[]) ∷ []
onto_first c (t ∷ ts) = (String.◌∷◌ c t) ∷ ts

-- `s.rstrip` and `s.strip` of the characters whose code passes a test.
unfoldable pub rstrip_where : (ℕ → Bool) → String → String
rstrip_where drops String.[] = String.[]
rstrip_where drops (String.◌∷◌ c s) =
    let kept = rstrip_where drops s in
    if is_empty kept && drops (code c) then String.[] else String.◌∷◌ c kept

unfoldable pub lstrip_where : (ℕ → Bool) → String → String
lstrip_where drops String.[] = String.[]
lstrip_where drops (String.◌∷◌ c s) =
    if drops (code c) then lstrip_where drops s else String.◌∷◌ c s

unfoldable pub strip_where : (ℕ → Bool) → String → String
unfolding rstrip_where lstrip_where
strip_where drops s = rstrip_where drops (lstrip_where drops s)

-- s[n:]
abbrev pub after : ℕ → String → String
after zero s = s
after (suc n) String.[] = String.[]
after (suc n) (String.◌∷◌ c s) = after n s

-- `part in s`
unfoldable pub contains : String → String → Bool
contains part String.[] = str_eq part ""
contains part (String.◌∷◌ c s) = str_eq (prefix (len part) (String.◌∷◌ c s)) part || contains part s

-- A test at every character.
abbrev pub Each : (ℕ → Type 0) → String → Type 0
Each P String.[] = Unit
Each P (String.◌∷◌ c s) = P (code c) × Each P s

-- s.split(sep), for a separator of one character, given by its code.
unfoldable pub split_on : ℕ → String → List String
split_on sep String.[] = String.[] ∷ []
split_on sep (String.◌∷◌ c s) =
    let parts = split_on sep s in if code c == sep then String.[] ∷ parts else onto_first c parts

-- sep.join(parts)
abbrev pub join : String → List String → String
join sep [] = String.[]
join sep (t ∷ ts) = elim ts [ [] ↦ t | _ ∷ _ ↦ t ⊕ (sep ⊕ join sep ts) ]

digit : ℕ → String
digit zero = "0"
digit (suc zero) = "1"
digit (suc (suc zero)) = "2"
digit (suc (suc (suc zero))) = "3"
digit (suc (suc (suc (suc zero)))) = "4"
digit (suc (suc (suc (suc (suc zero))))) = "5"
digit (suc (suc (suc (suc (suc (suc zero)))))) = "6"
digit (suc (suc (suc (suc (suc (suc (suc zero))))))) = "7"
digit (suc (suc (suc (suc (suc (suc (suc (suc zero)))))))) = "8"
digit _ = "9"

digits_of : ℕ → ℕ → String
unfolding digit
digits_of zero n = digit n
digits_of (suc fuel) n = elim (ltb n 10) [
  | true ↦ digit n
  | false ↦ digits_of fuel (n / 10) ⊕ digit (n % 10)
]

-- str(n)
unfoldable pub show_int : ℕ → String
unfolding digits_of
show_int n = digits_of n n

show_int_12 : show_int 2040 ≡ "2040"
unfolding show_int
show_int_12 = refl
