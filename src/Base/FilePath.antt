-- ===== src/Base/FilePath.antt =====
-- File paths as text, with `join`, `parent` and `is_absolute` of `std::path` on Unix. Components `.`
-- in the middle of a path are left as they are.
use Prim.Native.Nat.{ℕ, suc}
use mathlib.Core.Bool.{Bool, false, ◌||◌, ◌&&◌}
use mathlib.Core.Option.{Option, none, some}
use mathlib.Core.List.{[], ◌∷◌, ◌++◌}
use nixnas.Base.Tests.{◌==◌, ltb, if◌then◌else◌}
use nixnas.Base.Lists.{is_empty, length}
use nixnas.Base.Text.{Text, ends_with}

abbrev slash : ℕ
slash = 47

abbrev pub is_absolute : Text → Bool
is_absolute [] = false
is_absolute (c ∷ _) = c == slash

abbrev keep_name : ℕ → Text → Text
keep_name c [] = if c == slash then [] else c ∷ []
keep_name c (d ∷ t) = c ∷ d ∷ t

-- Without the slashes at the end.
unfoldable pub trim_slashes : Text → Text
trim_slashes [] = []
trim_slashes (c ∷ t) = keep_name c (trim_slashes t)

abbrev keep_dir : ℕ → Text → Text
keep_dir c [] = if c == slash then c ∷ [] else []
keep_dir c (d ∷ t) = c ∷ d ∷ t

-- Everything up to and with the last slash.
unfoldable pub dir_part : Text → Text
dir_part [] = []
dir_part (c ∷ t) = keep_dir c (dir_part t)

abbrev ends_with_slash : Text → Bool
ends_with_slash [] = false
ends_with_slash (c ∷ []) = c == slash
ends_with_slash (_ ∷ d ∷ t) = ends_with_slash (d ∷ t)

abbrev parent_of : Text → Text → Option Text
parent_of [] d = none
parent_of (_ ∷ _) [] = some []
parent_of (_ ∷ _) (c ∷ d) =
    let up = trim_slashes (c ∷ d) in if is_empty up then some (slash ∷ []) else some up

unfoldable pub parent : Text → Option Text
unfolding trim_slashes dir_part
parent p = parent_of (trim_slashes p) (dir_part (trim_slashes p))

unfoldable pub join : Text → Text → Text
join base p =
    if is_absolute p
    then p
    else if is_empty base
    then p
    else if ends_with_slash base
    then base ++ p
    else base ++ (slash ∷ p)

abbrev has_slash : Text → Bool
has_slash [] = false
has_slash (c ∷ s) = let rest = has_slash s in c == slash || rest

-- `Path::file_name` of a path that a directory listing gives: what stands after the last slash.
unfoldable pub file_name : Text → Text
file_name [] = []
file_name (c ∷ s) =
    let rest = file_name s in if has_slash s then rest else if c == slash then s else c ∷ s

-- `Path::extension() == ext`: a dot and the extension end the name, and something stands before.
unfoldable pub has_extension : Text → Text → Bool
unfolding file_name ends_with
has_extension ext p =
    let name = file_name p in ends_with (b'.' ∷ ext) name && ltb (suc (length ext)) (length name)
