-- ===== src/Filepath.antt =====
-- `Join` and `Clean` of Go's `path/filepath` on Unix, which the launcher calls.
use mathlib.Core.List.{reverse}
use rules_vmtest.Base.{
  Bool, true, false, ◌||◌, [], ◌∷◌, ◌++◌, List, Text, text, same, is_empty, if◌then◌else◌,
}
use rules_vmtest.Strings.{split, join, has_prefix}

-- The elements before `..`, the last one first.
abbrev pub pop : Bool → List Text → List Text
pop rooted [] = if rooted then [] else text ".." ∷ []
pop rooted (p ∷ ps) = if same p (text "..") then text ".." ∷ p ∷ ps else ps

abbrev pub push : Bool → List Text → Text → List Text
push rooted stack part =
    if is_empty part || same part (text ".")
    then stack
    else if same part (text "..")
    then pop rooted stack
    else part ∷ stack

abbrev pub push_all : Bool → List Text → List Text → List Text
push_all rooted stack [] = stack
push_all rooted stack (part ∷ parts) = push_all rooted (push rooted stack part) parts

abbrev pub with_root : Bool → Text → Text
with_root true body = text "/" ++ body
with_root false body = if is_empty body then text "." else body

-- `filepath.Clean`
unfoldable pub clean : Text → Text
clean path =
    let rooted = has_prefix path (text "/") in
    with_root rooted (join (text "/") (reverse (push_all rooted [] (split b'/' path))))

abbrev pub non_empty : List Text → List Text
non_empty [] = []
non_empty (part ∷ parts) = if is_empty part then non_empty parts else part ∷ non_empty parts

abbrev pub join_cleaned : List Text → Text
join_cleaned [] = []
join_cleaned (part ∷ parts) = clean (join (text "/") (part ∷ parts))

-- `filepath.Join`
unfoldable pub join_path : List Text → Text
unfolding clean
join_path parts = join_cleaned (non_empty parts)
