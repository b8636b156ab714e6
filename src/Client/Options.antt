-- ===== src/Client/Options.antt =====
-- client/client.c: `parse_options_in_list`. `getopt` gives the options with their arguments, in
-- order, and is a parameter. The list of actions is the sequence that a `LinkedList` holds;
-- allocation is taken to succeed, so the result -1 does not occur.
use file_storage_server.Base.{
  ℕ, ◌+◌, ◌==◌, Bool, true, false, Option, none, some, List, [], ◌∷◌, ◌++◌, ltb, if◌then◌else◌,
  length,
}
use file_storage_server.Base.Int.{ℤ, pos}
use file_storage_server.Utilities.{CString}
use file_storage_server.Utilities.Numbers.{strtol}
use file_storage_server.Protocol.{max_path}

pub data ActionCode : Type 0 where
  append write read write_dir read_n lock unlock remove : ActionCode

pub record Action : Type 0 where
  pub code : ActionCode
  pub arguments : CString
  pub directory : Option CString
  pub wait_time : ℤ

-- The globals that the options set, `socket_set`, and the list.
pub record Parsed : Type 0 where
  pub socket_path : Option CString
  pub socket_set : Bool
  pub verbose : Bool
  pub action_list : List Action

-- The letter of an option, and its argument.
abbrev pub Opt : Type 0
Opt = ℕ × CString

unfoldable pub new_action : ActionCode → CString → Parsed → Parsed
new_action code optarg p = record p {
  action_list =
      p.action_list
      ++ record { code = code; arguments = optarg; directory = none; wait_time = pos 0 } ∷ [];
}

-- What `list_remove_tail`, a change, and `list_insert_tail` do; nothing on an empty list.
unfoldable pub change_last : (Action → Action) → List Action → List Action
change_last f [] = []
change_last f (a ∷ []) = f a ∷ []
change_last f (a ∷ b ∷ rest) = a ∷ change_last f (b ∷ rest)

abbrev pub is_write : ActionCode → Bool
is_write append = true
is_write write = true
is_write write_dir = true
is_write other = false

abbrev pub is_read : ActionCode → Bool
is_read read = true
is_read read_n = true
is_read other = false

-- `-D` and `-d`: the directory is set if the kind of action fits and none is set yet.
abbrev pub set_directory : (ActionCode → Bool) → CString → Action → Action
set_directory fits optarg a =
    if fits a.code
    then (elim a.directory [ none ↦ record a { directory = some optarg } | some dir ↦ a ])
    else a

-- `-f`: only the first path that fits is kept.
unfoldable pub set_socket : CString → Parsed → Parsed
set_socket optarg p =
    if p.socket_set
    then p
    else if ltb max_path (length optarg + 1)
    then p
    else record p { socket_path = some optarg; socket_set = true }

-- The cases from `-r` on; an option that has no case changes nothing.
unfoldable pub later_option : ℕ → CString → Parsed → Parsed
unfolding new_action change_last
later_option opt optarg p =
    if opt == b'r'
    then new_action read optarg p
    else if opt == b'R'
    then new_action read_n optarg p
    else if opt == b'd'
    then record p { action_list = change_last (set_directory is_read optarg) p.action_list }
    else if opt == b'l'
    then new_action lock optarg p
    else if opt == b'u'
    then new_action unlock optarg p
    else if opt == b'c'
    then new_action remove optarg p
    else p

-- The body of the `switch`, but for `-h`.
unfoldable pub one_option : ℕ → CString → Parsed → Parsed
unfolding new_action change_last set_socket later_option
one_option opt optarg p =
    if opt == b'f'
    then set_socket optarg p
    else if opt == b'p'
    then record p { verbose = true }
    else if opt == b't'
    then record p {
      action_list = change_last (λ a. record a { wait_time = (strtol optarg).value }) p.action_list;
    }
    else if opt == b'a'
    then new_action append optarg p
    else if opt == b'W'
    then new_action write optarg p
    else if opt == b'w'
    then new_action write_dir optarg p
    else if opt == b'D'
    then record p { action_list = change_last (set_directory is_write optarg) p.action_list }
    else later_option opt optarg p

-- The loop: `-h` returns 1 at once, and the end of the options 0.
unfoldable pub parse_options_in_list : List Opt → Parsed → ℤ × Parsed
unfolding one_option
parse_options_in_list [] p = (pos 0, p)
parse_options_in_list ((opt, optarg) ∷ options) p = elim (opt == b'h') [
  | true ↦ (pos 1, p)
  | false ↦ parse_options_in_list options (one_option opt optarg p)
]

abbrev pub unparsed : Parsed
unparsed = record { socket_path = none; socket_set = false; verbose = false; action_list = [] }
