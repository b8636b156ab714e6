-- ===== src/Tests/Options.antt =====
-- The helpers of utils/utilities.c, the command line of the client, and its search for files, on small
-- inputs.
use file_storage_server.Base.{◌≡◌, refl, false, some, List, [], ◌∷◌}
use file_storage_server.Base.Int.{pos}
use file_storage_server.Utilities.{CString, string_compare}
use file_storage_server.Utilities.Host.{MkDir, made}
use file_storage_server.Client.Options.{write, lock, parse_options_in_list, unparsed}
use file_storage_server.Client.Actions.{outline, parse_options-requested}
use file_storage_server.Client.Directory.{
  Listing, done, file_entry, dir_entry, get_files_from_directory,
}
use file_storage_server.Client.Found.{FoundOr, get_files-take}

-- The directories made so far, the last in front.
abbrev make : CString → List CString → MkDir × List CString
make path made_before = (made, path ∷ made_before)

-- `-W a -D d -l b`
parse_options-requested_example :
    ((parse_options_in_list ((b'W', 97 ∷ []) ∷ (b'D', 100 ∷ []) ∷ (b'l', 98 ∷ []) ∷ []) unparsed).0
      ≡ pos 0)
    × (outline
          (parse_options_in_list
            ((b'W', 97 ∷ []) ∷ (b'D', 100 ∷ []) ∷ (b'l', 98 ∷ []) ∷ [])
            unparsed).1.action_list
        ≡ (write, 97 ∷ []) ∷ (lock, 98 ∷ []) ∷ [])
parse_options-requested_example =
    parse_options-requested ((b'W', 97 ∷ []) ∷ (b'D', 100 ∷ []) ∷ (b'l', 98 ∷ []) ∷ []) unparsed
      (refl, (refl, (refl, tt)))

-- The directory "d" with "x", the directory "e" with "y", and "z".
abbrev tree : Listing
tree =
    file_entry (120 ∷ [])
      (dir_entry (101 ∷ []) (file_entry (121 ∷ []) done) (file_entry (122 ∷ []) done))

-- Two paths are found, and no call of `realpath` has left `errno` set at the end.
get_files-take_example :
    FoundOr
      (λ path. path)
      (λ path. false)
      (get_files_from_directory some (λ path. false) (100 ∷ []) tree (pos 2) [])
      2
      []
      ((100 ∷ 47 ∷ 120 ∷ []) ∷ (100 ∷ 47 ∷ 101 ∷ 47 ∷ 121 ∷ []) ∷ (100 ∷ 47 ∷ 122 ∷ []) ∷ [])
unfolding string_compare
get_files-take_example = get_files-take (λ path. path) (λ path. false) (100 ∷ []) tree 2 [] (tt, tt)
