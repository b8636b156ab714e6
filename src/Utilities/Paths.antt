-- ===== src/Utilities/Paths.antt =====
-- utils/utilities.c: which directories `mkdir_p` makes, and in which order.
use file_storage_server.Base.{
  ℕ, suc, Bool, true, List, [], ◌∷◌, ◌++◌, map, ◌==◌, if◌then◌else◌, take,
}
use file_storage_server.Utilities.{CString}
use file_storage_server.Utilities.Host.{MkDir, slash, try_mkdir, and_next}

-- The indices of the slashes, the first byte having the index `i`.
abbrev pub slashes : ℕ → CString → List ℕ
slashes i [] = []
slashes i (c ∷ cs) = if c == slash then i ∷ slashes (suc i) cs else slashes (suc i) cs

-- The text up to each slash that is not its first byte, and the text itself.
abbrev pub lineage : CString → List CString
lineage [] = []
lineage (c ∷ cs) = map (λ i. take i (c ∷ cs)) (slashes 1 cs) ++ (c ∷ cs) ∷ []

module _ {D : Type 0} (mkdir : CString → D → MkDir × D) where
  -- Make each in turn, up to the first that is refused.
  abbrev pub make_all : List CString → D → Bool × D
  make_all [] d = (true, d)
  make_all (path ∷ paths) d = and_next (try_mkdir mkdir path d) (make_all paths)
