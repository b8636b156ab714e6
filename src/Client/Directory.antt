-- ===== src/Client/Directory.antt =====
-- client/client.c: `get_files_from_directory`.
use file_storage_server.Base.{
  zero, suc, ◌||◌, Bool, true, false, Option, none, some, List, [], ◌∷◌, ◌++◌, if◌then◌else◌,
}
use file_storage_server.Base.Int.{ℤ, pos, negsuc, ◌-ℤ◌}
use file_storage_server.Utilities.{CString, string_compare}
use file_storage_server.Utilities.Host.{slash}

-- What `readdir` gives for a directory: its entries in order, with the contents of those that are
-- directories. `unopened` is a directory that `opendir` refuses, `broken` an error of `readdir`.
pub data Listing : Type 0 where
  unopened broken done : Listing
  file_entry : CString → Listing → Listing
  dir_entry : CString → Listing → Listing → Listing

abbrev pub is_dots : CString → Bool
is_dots name = string_compare name (46 ∷ []) || string_compare name (46 ∷ 46 ∷ [])

-- The code, `*how_many`, and the list of files.
abbrev pub Found : Type 0
Found = ℤ × (ℤ × List CString)

abbrev pub is_zero : ℤ → Bool
is_zero (pos zero) = true
is_zero (pos (suc n)) = false
is_zero (negsuc n) = false

-- Unless it is -1, one less.
abbrev pub count_down : ℤ → ℤ
count_down (negsuc zero) = negsuc zero
count_down (negsuc (suc n)) = negsuc (suc n) -ℤ pos 1
count_down (pos n) = pos n -ℤ pos 1

-- Go on after a part, unless it has returned -1.
abbrev pub and_go : Found → (ℤ → List CString → Found) → Found
and_go (pos n, (how_many, files)) k = k how_many files
and_go (negsuc n, r) k = (negsuc 0, r)

-- The test of `errno` behind the loop; `err` says whether it is set.
abbrev pub finish_directory : Bool → ℤ → List CString → Found
finish_directory err how_many files = (if err then negsuc 0 else pos 0, (how_many, files))

-- The loop, with whether `errno` is set. `taints` says for which paths `realpath` leaves `errno` set
-- although it succeeds. A subdirectory starts with `errno` cleared, and has it cleared if it returns 0.
unfoldable pub read_entries :
    (CString → Option CString)
    → (CString → Bool)
    → CString
    → Listing
    → ℤ
    → List CString
    → Bool
    → Found
read_entries realpath taints source_dir unopened how_many files err = (negsuc 0, (how_many, files))
read_entries realpath taints source_dir broken how_many files err = (negsuc 0, (how_many, files))
read_entries realpath taints source_dir done how_many files err =
    finish_directory err how_many files
read_entries realpath taints source_dir (file_entry name rest) how_many files err =
    let relative = source_dir ++ slash ∷ name in
    let more = read_entries realpath taints source_dir rest in
    if is_zero how_many
    then finish_directory err how_many files
    else if is_dots name
    then more how_many files err
    else elim (realpath relative) [
      | none ↦ (negsuc 0, (how_many, files))
      | some absolute ↦ more (count_down how_many) (files ++ absolute ∷ []) (err || taints relative)
    ]
read_entries realpath taints source_dir (dir_entry name inside rest) how_many files err =
    let relative = source_dir ++ slash ∷ name in
    let more = read_entries realpath taints source_dir rest in
    let below = read_entries realpath taints relative inside how_many files false in
    if is_zero how_many
    then finish_directory err how_many files
    else if is_dots name
    then more how_many files err
    else and_go below (λ left found. more left found false)

unfoldable pub get_files_from_directory :
    (CString → Option CString) → (CString → Bool) → CString → Listing → ℤ → List CString → Found
unfolding read_entries
get_files_from_directory realpath taints source_dir entries how_many files =
    read_entries realpath taints source_dir entries how_many files false
