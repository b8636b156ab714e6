-- ===== src/Master/Config.antt =====
-- server/server.c: `parse_configuration_file`. A file is the list of the lines that `getline` gives.
use file_storage_server.Base.{ℕ, ◌-◌, ◌^◌, Option, none, some, List, [], ◌∷◌, if◌then◌else◌}
use file_storage_server.Base.Int.{ℤ, pos, negsuc}
use file_storage_server.Outcome.{Outcome, ok, fault, and_then}
use file_storage_server.Utilities.{CString, string_compare}
use file_storage_server.Utilities.Numbers.{atoi}
use file_storage_server.Utilities.Tokens.{strtok}

pub record Config : Type 0 where
  pub no_of_workers : ℕ
  pub max_size : ℕ
  pub max_files : ℕ
  pub socket_path : Option CString
  pub log_file : Option CString
  pub storage_file : Option CString

abbrev pub equals : ℕ
equals = 61

abbrev pub newline : ℕ
newline = 10

-- The names of the parameters.
abbrev n_workers_name : CString
n_workers_name = b'N' ∷ b'_' ∷ b'W' ∷ b'O' ∷ b'R' ∷ b'K' ∷ b'E' ∷ b'R' ∷ b'S' ∷ []

abbrev max_size_name : CString
max_size_name = b'M' ∷ b'A' ∷ b'X' ∷ b'_' ∷ b'S' ∷ b'I' ∷ b'Z' ∷ b'E' ∷ []

abbrev max_files_name : CString
max_files_name = b'M' ∷ b'A' ∷ b'X' ∷ b'_' ∷ b'F' ∷ b'I' ∷ b'L' ∷ b'E' ∷ b'S' ∷ []

abbrev socket_path_name : CString
socket_path_name = b'S' ∷ b'O' ∷ b'C' ∷ b'K' ∷ b'E' ∷ b'T' ∷ b'_' ∷ b'P' ∷ b'A' ∷ b'T' ∷ b'H' ∷ []

abbrev log_file_name : CString
log_file_name = b'L' ∷ b'O' ∷ b'G' ∷ b'_' ∷ b'F' ∷ b'I' ∷ b'L' ∷ b'E' ∷ []

abbrev storage_file_name : CString
storage_file_name =
    b'S' ∷ b'T' ∷ b'O' ∷ b'R' ∷ b'A' ∷ b'G' ∷ b'E' ∷ b'_' ∷ b'F' ∷ b'I' ∷ b'L' ∷ b'E' ∷ []

-- An `int` that is stored as an `unsigned int`.
abbrev pub to_unsigned : ℤ → ℕ
to_unsigned (pos n) = n
to_unsigned (negsuc n) = 2 ^ 32 - 1 - n

-- `if (strcmp(parameter, name) == 0) { ... strtok(NULL, "\n") ... }`; a value that is missing is read
-- through NULL.
unfoldable pub setting :
    CString → (CString → Config → Config) → CString → CString → Config → Outcome Config
setting name store parameter rest c =
    if string_compare parameter name
    then elim (strtok newline rest).0 [ none ↦ fault | some value ↦ ok (store value c) ]
    else ok c

-- The body of the loop. No parameter has the name of two settings.
unfoldable pub parse_line : CString → Config → Outcome Config
unfolding setting
parse_line line c =
    let (parameter, rest) = strtok equals line in
    elim parameter [
      | none ↦ fault
      | some p ↦
          and_then
            (setting n_workers_name (λ v d. record d { no_of_workers = to_unsigned (atoi v) }) p
              rest c)
            λ c₁.
              and_then
                (setting max_size_name (λ v d. record d { max_size = to_unsigned (atoi v) }) p rest
                  c₁)
                λ c₂.
                  and_then
                    (setting max_files_name (λ v d. record d { max_files = to_unsigned (atoi v) }) p
                      rest c₂)
                    λ c₃.
                      and_then
                        (setting socket_path_name (λ v d. record d { socket_path = some v }) p rest
                          c₃)
                        λ c₄.
                          and_then
                            (setting log_file_name (λ v d. record d { log_file = some v }) p rest
                              c₄)
                            λ c₅.
                              setting storage_file_name (λ v d. record d { storage_file = some v })
                                p rest c₅
    ]

unfoldable pub parse_lines : List CString → Config → Outcome Config
unfolding parse_line
parse_lines [] c = ok c
parse_lines (line ∷ lines) c = and_then (parse_line line c) (parse_lines lines)

-- `none` is a file that does not open.
unfoldable pub parse_configuration_file : Option (List CString) → Config → Outcome (ℤ × Config)
unfolding parse_lines
parse_configuration_file none c = ok (negsuc 0, c)
parse_configuration_file (some lines) c = and_then (parse_lines lines c) (λ c'. ok (pos 0, c'))
