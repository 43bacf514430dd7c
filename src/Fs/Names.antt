-- ===== src/Fs/Names.antt =====
-- File names and their 8.3 form. A C string is the list of its characters, none of them 0.
pub mod Agree
use mathlib.Core.List.{map}
use smart_os.Base.{
  ℕ, zero, suc, ◌+◌, ◌-◌, Bool, true, false, ◌&&◌, Option, none, some, List, [], ◌∷◌, ◌++◌, leb,
  ◌==◌, if◌then◌else◌, length, take, replicate,
}

abbrev pub space : ℕ
space = 32

-- A lower-case letter becomes upper case.
abbrev pub upper : ℕ → ℕ
upper c = if leb b'a' c && leb c b'z' then c - b'a' + b'A' else c

-- `strchr(filename, '.')`: what stands before the first dot, and what stands behind it if there is one.
pub split_dot : List ℕ → List ℕ × Option (List ℕ)
split_dot [] = ([], none)
split_dot (c ∷ cs) = let (n, e) = split_dot cs in if c == b'.' then ([], some cs) else (c ∷ n, e)

-- The loop that fills `n` places of `name83` from a part of the name.
pub fill : ℕ → List ℕ → List ℕ
fill zero cs = []
fill (suc n) [] = space ∷ fill n []
fill (suc n) (c ∷ cs) = (if c == space then space else upper c) ∷ fill n cs

-- `name83` for the parts on both sides of the dot.
pub parts_to_83 : List ℕ × Option (List ℕ) → List ℕ
unfolding fill
parts_to_83 (name, none) = fill 8 name ++ (space ∷ space ∷ space ∷ [])
parts_to_83 (name, some ext) = fill 8 name ++ fill 3 ext

unfoldable pub filename_to_83 : List ℕ → List ℕ
unfolding split_dot parts_to_83
filename_to_83 filename = parts_to_83 (split_dot filename)

-- The two strings `name` and `ext` that creating and deleting a file make: cut off, and in upper case.
pub cut_parts : List ℕ × Option (List ℕ) → List ℕ × List ℕ
cut_parts (name, none) = (map upper (take 8 name), [])
cut_parts (name, some ext) = (map upper (take 8 name), map upper (take 3 ext))

-- A string in a field of `n` spaces.
pub field : ℕ → List ℕ → List ℕ
field n s = s ++ replicate (n - length s) space

-- The eleven bytes that `smart_fs_create` writes and that `smart_fs_delete` compares with.
unfoldable pub create_name : List ℕ → List ℕ
unfolding split_dot cut_parts field
create_name filename =
    let (name, ext) = cut_parts (split_dot filename) in field 8 name ++ field 3 ext

-- `strncpy(file->filename, filename, 11)` with the end of the string put behind it.
unfoldable pub stored_name : List ℕ → List ℕ
stored_name filename = take 11 filename
