-- ===== src/Pipelines/Paths.antt =====
-- The shader files' names of src/PipelineRegistry.cpp, as bytes: NormalizeShaderPath and SameShaderFile.
use orgmodule_services.Common.{
  ℕ, ◌+◌, Bool, true, false, ◌&&◌, ◌||◌, Option, none, some, List, [], ◌∷◌, map, leb, ◌==◌,
  if◌then◌else◌, drop, length,
}

abbrev pub PathName : Type 0
PathName = List ℕ

abbrev pub slash : ℕ
slash = 47

-- A backslash becomes a slash, an upper-case letter lower-case.
unfoldable pub fold_byte : ℕ → ℕ
fold_byte c = if c == 92 then slash else if leb 65 c && leb c 90 then c + 32 else c

unfoldable pub same_path : PathName → PathName → Bool
same_path [] [] = true
same_path [] (y ∷ ys) = false
same_path (x ∷ xs) [] = false
same_path (x ∷ xs) (y ∷ ys) = x == y && same_path xs ys

unfoldable pub starts_with : PathName → PathName → Bool
starts_with [] xs = true
starts_with (p ∷ ps) [] = false
starts_with (p ∷ ps) (x ∷ xs) = p == x && starts_with ps xs

-- "data/shaders/"
abbrev pub shaders : PathName
shaders = 100 ∷ 97 ∷ 116 ∷ 97 ∷ 47 ∷ 115 ∷ 104 ∷ 97 ∷ 100 ∷ 101 ∷ 114 ∷ 115 ∷ 47 ∷ []

-- What follows the last occurrence (`rfind`).
unfoldable pub after_last : PathName → PathName → Option PathName
after_last pattern [] = none
after_last pattern (x ∷ xs) =
    let here =
      if starts_with pattern (x ∷ xs) then some (drop (length pattern) (x ∷ xs)) else none in
    elim (after_last pattern xs) [ none ↦ here | some rest ↦ some rest ]

abbrev pub relative_to : PathName → PathName → PathName
relative_to pattern xs = elim (after_last pattern xs) [ none ↦ xs | some rest ↦ rest ]

-- The loop that drops leading "./".
unfoldable pub drop_dots : PathName → PathName
drop_dots [] = []
drop_dots (x ∷ []) = x ∷ []
drop_dots (x ∷ y ∷ xs) = let rest = drop_dots xs in if x == 46 && y == 47 then rest else x ∷ y ∷ xs

-- `NormalizeShaderPath`.
unfoldable pub normalize : PathName → PathName
normalize path = drop_dots (relative_to shaders (map fold_byte path))

-- `SameShaderFile`: the changed file is the source, or a path that ends in a slash and it.
unfoldable pub has_suffix : PathName → PathName → Bool
has_suffix [] source = false
has_suffix (x ∷ xs) source = (x == slash && same_path xs source) || has_suffix xs source

unfoldable pub same_shader_file : PathName → PathName → Bool
same_shader_file changed [] = false
same_shader_file changed (s ∷ source) =
    same_path changed (s ∷ source) || has_suffix changed (s ∷ source)
