-- ===== src/Client/Found.antt =====
-- client/client.c: which files `get_files_from_directory` finds.
use file_storage_server.Base.{
  ℕ, zero, suc, ◌-◌, ◌≡◌, refl, sym, ap, ap₂, ◌∙◌, ◌⊎◌, ◌||◌, Bool, true, false, Option, some, List,
  [], ◌∷◌, ◌++◌, append_assoc, append-nil, if◌then◌else◌, length, length-append, take, take_nil,
  take-append_more, arith, Bool-cases, inl, inr,
}
use file_storage_server.Base.Int.{pos, negsuc, ◌-ℤ◌}
use file_storage_server.Utilities.{CString}
use file_storage_server.Utilities.Host.{slash}
use file_storage_server.Client.Directory.{
  Listing, unopened, broken, done, file_entry, dir_entry, is_dots, Found, finish_directory,
  count_down, read_entries, get_files_from_directory,
}

-- Every directory can be opened and read.
abbrev pub IsReadable : Listing → Type 0
IsReadable unopened = ⊥
IsReadable broken = ⊥
IsReadable done = Unit
IsReadable (file_entry name rest) = IsReadable rest
IsReadable (dir_entry name inside rest) = IsReadable inside × IsReadable rest

-- A directory that can be read and has no subdirectories.
abbrev pub IsFlat : Listing → Type 0
IsFlat unopened = ⊥
IsFlat broken = ⊥
IsFlat done = Unit
IsFlat (file_entry name rest) = IsFlat rest
IsFlat (dir_entry name inside rest) = ⊥

-- The same, but with the code -1.
abbrev failed : Found → Found
failed r = (negsuc 0, r.1)

module _ (resolve : CString → CString) (taints : CString → Bool) where
  -- All files below a directory but those called `.` and `..`, in the order of the entries, with the
  -- files of a directory where the directory stands.
  abbrev pub below : CString → Listing → List CString
  below dir unopened = []
  below dir broken = []
  below dir done = []
  below dir (file_entry name rest) =
      (if is_dots name then [] else resolve (dir ++ slash ∷ name) ∷ []) ++ below dir rest
  below dir (dir_entry name inside rest) =
      (if is_dots name then [] else below (dir ++ slash ∷ name) inside) ++ below dir rest

  abbrev real : CString → Option CString
  real path = some (resolve path)

  -- What is found when `n` files are wanted and `all` are there.
  abbrev up_to : ℕ → List CString → List CString → Found
  up_to n files all = (pos 0, (pos (n - length all), files ++ take n all))

  up_to_more :
      (n m : ℕ) (files front xs ys : List CString)
      → n - length xs ≡ m
      → front ≡ take n xs
      → up_to m (files ++ front) ys ≡ up_to n files (xs ++ ys)
  up_to_more n m files front xs ys e e' =
      let left : m - length ys ≡ n - length (xs ++ ys) = omega (arith, length-append xs ys) in
      let found : (files ++ front) ++ take m ys ≡ files ++ take n (xs ++ ys) =
        append_assoc files front (take m ys)
        ∙ ap₂ (λ l k. files ++ (l ++ take k ys)) e' (sym e)
        ∙ ap (λ l. files ++ l) (sym (take-append_more n xs ys)) in
      ap₂ {C = Found} (λ k l. (pos 0, (pos k, l))) left found

  nothing :
      (n : ℕ) (files all : List CString)
      → take n all ≡ []
      → n ≡ n - length all
      → (pos 0, (pos n, files)) ≡ up_to n files all
  nothing n files all e e' =
      ap₂ {C = Found} (λ k l. (pos 0, (pos k, l))) e'
        (sym (append-nil files) ∙ ap (λ l. files ++ l) (sym e))

  count_down-suc : (n : ℕ) → count_down (pos (suc n)) ≡ pos n
  unfolding ◌-ℤ◌
  count_down-suc n = ground arith

  -- A path for which `realpath` leaves `errno` set.
  abbrev pub Tainted : Type 0
  Tainted = (path : CString) × (taints path ≡ true)

  -- The first `n` are found, or the code is -1 and `errno` is to blame.
  abbrev pub FoundOr : Found → ℕ → List CString → List CString → Type 0
  FoundOr r n files all = (r ≡ up_to n files all) ⊎ ((r.0 ≡ negsuc 0) × Tainted)

  finish-FoundOr :
      (err : Bool) (n : ℕ) (files all : List CString)
      → (err ≡ true → Tainted)
      → take n all ≡ []
      → n ≡ n - length all
      → FoundOr (finish_directory err (pos n) files) n files all
  finish-FoundOr true n files all blame e e' = inr (refl, blame refl)
  finish-FoundOr false n files all blame e e' = inl (nothing n files all e e')

  either-tainted :
      (err : Bool) (path : CString) → (err ≡ true → Tainted) → (err || taints path) ≡ true → Tainted
  either-tainted true path blame h = blame refl
  either-tainted false path blame h = (path, h)

  entries-FoundOr :
      (dir : CString) (l : Listing) (n : ℕ) (files : List CString) (err : Bool)
      → IsReadable l
      → (err ≡ true → Tainted)
      → FoundOr (read_entries real taints dir l (pos n) files err) n files (below dir l)
  unfolding read_entries
  entries-FoundOr dir unopened n files err h blame = elim h [ ]
  entries-FoundOr dir broken n files err h blame = elim h [ ]
  entries-FoundOr dir done zero files err h blame =
      finish-FoundOr err zero files [] blame refl (omega arith)
  entries-FoundOr dir done (suc n) files err h blame =
      finish-FoundOr err (suc n) files [] blame refl (omega arith)
  entries-FoundOr dir (file_entry name rest) zero files err h blame =
      finish-FoundOr err zero files (below dir (file_entry name rest)) blame refl (omega arith)
  entries-FoundOr dir (dir_entry name inside rest) zero files err h blame =
      finish-FoundOr err zero files (below dir (dir_entry name inside rest)) blame refl
        (omega arith)
  entries-FoundOr dir (file_entry name rest) (suc n) files err h blame =
      elim (Bool-cases (is_dots name)) [
        | inl dots ↦ rw dots (entries-FoundOr dir rest (suc n) files err h blame)
        | inr plain ↦
            let path : CString = dir ++ slash ∷ name in
            let ready : FoundOr
                (read_entries real taints dir rest (pos n) (files ++ resolve path ∷ [])
                  (err || taints path))
                n (files ++ resolve path ∷ []) (below dir rest) =
              entries-FoundOr dir rest n (files ++ resolve path ∷ []) (err || taints path) h
                (either-tainted err path blame) in
            let counted : read_entries real taints dir rest (count_down (pos (suc n)))
                  (files ++ resolve path ∷ []) (err || taints path)
                ≡ read_entries real taints dir rest (pos n) (files ++ resolve path ∷ [])
                    (err || taints path) =
              ap
                (λ k.
                  read_entries real taints dir rest k (files ++ resolve path ∷ [])
                    (err || taints path))
                (count_down-suc n) in
            rw plain (elim ready [
              | inl e ↦ inl (
                  counted
                  ∙ e
                  ∙ up_to_more (suc n) n files (resolve path ∷ []) (resolve path ∷ [])
                      (below dir rest) (omega arith)
                      (ap (λ l. resolve path ∷ l) (sym (take_nil n))))
              | inr (code, tainted) ↦ inr (ap (λ (x : Found). x.0) counted ∙ code, tainted)
            ])
      ]
  entries-FoundOr dir (dir_entry name inside rest) (suc n) files err (h, h') blame =
      elim (Bool-cases (is_dots name)) [
        | inl dots ↦ rw dots (entries-FoundOr dir rest (suc n) files err h' blame)
        | inr plain ↦
            let found : List CString = below (dir ++ slash ∷ name) inside in
            elim (entries-FoundOr (dir ++ slash ∷ name) inside (suc n) files false h
              (λ e. absurd (ground (arith, e)))) [
                | inr (code, tainted) ↦ rw (plain, code) (inr (refl, tainted))
                | inl e ↦
                    rw (plain, e)
                      (elim (entries-FoundOr dir rest (suc n - length found)
                        (files ++ take (suc n) found) false h' (λ x. absurd (ground (arith, x)))) [
                          | inl e' ↦ inl (
                              e'
                              ∙ up_to_more (suc n) (suc n - length found) files (take (suc n) found)
                                  found (below dir rest) refl refl)
                          | inr bad ↦ inr bad
                        ])
              ]
      ]

  -- Where every directory can be read and every path resolved, with `n` files wanted, and whatever
  -- `realpath` leaves in `errno`: the call returns 0, the first `n` of the files below the directory are
  -- added to the list, in their order, and what is wanted goes down by the number of those that are
  -- there, so none is added for 0; or the call returns -1, and `realpath` leaves `errno` set for a path,
  -- although it succeeds.
  pub get_files-take :
      (dir : CString) (l : Listing) (n : ℕ) (files : List CString)
      → IsReadable l
      → FoundOr (get_files_from_directory real taints dir l (pos n) files) n files (below dir l)
  unfolding get_files_from_directory
  get_files-take dir l n files h =
      entries-FoundOr dir l n files false h (λ e. absurd (ground (arith, e)))
