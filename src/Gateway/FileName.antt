-- ===== src/Gateway/FileName.antt =====
-- routes.rs: the name and the extension in a path that a client gives, as `Path::file_stem` and
-- `Path::extension` of Rust's standard library find them.
use bvault_app.Prelude.{Option, some, none, List, [], ◌∷◌, ◌++◌, ◌==◌, if◌then◌else◌}
use bvault_app.Text.{Text, text_equal}
use bvault_app.Store.Raw.{has, file_stem}

unfoldable pub to_first : Text → List Text → List Text
to_first part [] = part ∷ []
to_first part (first ∷ rest) = (part ++ first) ∷ rest

unfoldable pub split_slash : Text → List Text
unfolding to_first
split_slash [] = [] ∷ []
split_slash (c ∷ cs) =
    let parts = split_slash cs in if c == b'/' then [] ∷ parts else to_first (c ∷ []) parts

-- An empty part and `.` are no components.
unfoldable pub final_part : List Text → Option Text
final_part [] = none
final_part (part ∷ parts) = elim (final_part parts) [
  | some last ↦ some last
  | none ↦
      if text_equal part [] then none else if text_equal part (b'.' ∷ []) then none else some part
]

unfoldable pub path_name : Text → Option Text
unfolding final_part split_slash
path_name path = elim (final_part (split_slash path)) [
  | none ↦ none
  | some part ↦ if text_equal part (b'.' ∷ b'.' ∷ []) then none else some part
]

unfoldable pub path_stem : Text → Text
unfolding path_name file_stem
path_stem path = elim (path_name path) [ none ↦ [] | some name ↦ file_stem name ]

unfoldable pub after_last_dot : Text → Text
unfolding has
after_last_dot [] = []
after_last_dot (c ∷ cs) =
    let rest = after_last_dot cs in if has b'.' cs then rest else if c == b'.' then cs else []

-- A dot that begins the name does not count.
unfoldable pub name_extension : Text → Option Text
unfolding has after_last_dot
name_extension [] = none
name_extension (c ∷ cs) = if has b'.' cs then some (after_last_dot cs) else none

unfoldable pub path_extension : Text → Option Text
unfolding path_name name_extension
path_extension path = elim (path_name path) [ none ↦ none | some name ↦ name_extension name ]
