-- ===== src/Core/Paths.antt =====
-- `PurePosixPath.name` and `PurePosixPath.suffix` of the standard library, as the code uses them.
use async_ai_document_pipeli.Prelude.{
  ◌||◌, Option, none, some, List, [], ◌∷◌, String, str_eq, ◌==◌, ltb, if◌then◌else◌, len, is_empty,
  split_on, code,
}

-- The last component that is neither empty nor ".", after the one given.
abbrev pub last_component : String → List String → String
last_component found [] = found
last_component found (part ∷ parts) =
    last_component (if is_empty part || str_eq part "." then found else part) parts

unfoldable pub path_name : String → String
unfolding split_on
path_name path = last_component "" (split_on 0x2F path)

-- A name split at its last dot, which begins the second part.
unfoldable pub last_dot : String → Option (String × String)
last_dot String.[] = none
last_dot (String.◌∷◌ c s) = elim (last_dot s) [
  | some (before, after) ↦ some (String.◌∷◌ c before, after)
  | none ↦ if code c == 0x2E then some ("", String.◌∷◌ c s) else none
]

unfoldable pub suffix : String → String
unfolding path_name last_dot
suffix path = elim (last_dot (path_name path)) [
  | none ↦ ""
  | some (before, after) ↦ if is_empty before then "" else if ltb 1 (len after) then after else ""
]
