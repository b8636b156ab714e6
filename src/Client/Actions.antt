-- ===== src/Client/Actions.antt =====
-- client/client.c: which actions the options of the command line give.
use file_storage_server.Base.{
  ℕ, ◌+◌, ◌≡◌, refl, sym, ap, ◌∙◌, Bool, true, false, Option, none, some, List, [], ◌∷◌, ◌++◌,
  append_assoc, append-nil, ltb, ◌==◌, if◌then◌else◌, All, length,
}
use file_storage_server.Base.Int.{pos}
use file_storage_server.Utilities.{CString}
use file_storage_server.Protocol.{max_path}
use file_storage_server.Client.Options.{
  ActionCode, append, write, read, write_dir, read_n, lock, unlock, remove, Action, Parsed, Opt,
  new_action, change_last, is_write, is_read, set_directory, set_socket, one_option, later_option,
  parse_options_in_list,
}

-- The action that an option asks for, if it asks for one.
abbrev pub action_of : ℕ → Option ActionCode
action_of opt =
    if opt == b'f'
    then none
    else if opt == b'p'
    then none
    else if opt == b't'
    then none
    else if opt == b'a'
    then some append
    else if opt == b'W'
    then some write
    else if opt == b'w'
    then some write_dir
    else if opt == b'D'
    then none
    else if opt == b'r'
    then some read
    else if opt == b'R'
    then some read_n
    else if opt == b'd'
    then none
    else if opt == b'l'
    then some lock
    else if opt == b'u'
    then some unlock
    else if opt == b'c'
    then some remove
    else none

abbrev pub with_argument : Option ActionCode → CString → List (ActionCode × CString)
with_argument none optarg = []
with_argument (some code) optarg = (code, optarg) ∷ []

abbrev pub requested : List Opt → List (ActionCode × CString)
requested [] = []
requested ((opt, optarg) ∷ options) = with_argument (action_of opt) optarg ++ requested options

-- What stays of an action when its directory and its time to wait are forgotten.
abbrev pub outline : List Action → List (ActionCode × CString)
outline [] = []
outline (a ∷ actions) = (a.code, a.arguments) ∷ outline actions

outline-append : (xs ys : List Action) → outline (xs ++ ys) ≡ outline xs ++ outline ys
outline-append [] ys = refl
outline-append (a ∷ xs) ys = ap (λ l. (a.code, a.arguments) ∷ l) (outline-append xs ys)

outline-change_last :
    (f : Action → Action)
    → ((a : Action) → outline (f a ∷ []) ≡ outline (a ∷ []))
    → (actions : List Action) → outline (change_last f actions) ≡ outline actions
unfolding change_last
outline-change_last f same [] = refl
outline-change_last f same (a ∷ []) = same a
outline-change_last f same (a ∷ b ∷ rest) =
    ap (λ l. (a.code, a.arguments) ∷ l) (outline-change_last f same (b ∷ rest))

set_directory_same :
    (fits : ActionCode → Bool) (optarg : CString) (a : Action)
    → outline (set_directory fits optarg a ∷ []) ≡ outline (a ∷ [])
set_directory_same fits optarg a = fit (fits a.code)
  where
    unset :
        (d : Option CString)
        → outline ((elim d [ none ↦ record a { directory = some optarg } | some dir ↦ a ]) ∷ [])
          ≡ outline (a ∷ [])
    unset none = refl
    unset (some dir) = refl

    fit :
        (b : Bool)
        → outline (
            (if b
              then (elim a.directory [ none ↦ record a { directory = some optarg } | some dir ↦ a ])
              else a)
            ∷ [])
          ≡ outline (a ∷ [])
    fit true = unset a.directory
    fit false = refl

module _ (optarg : CString) (p : Parsed) where
  -- The actions of `q` are those of `p`, and the one asked for.
  abbrev Adds : Parsed → Option ActionCode → Type 0
  Adds q code = outline q.action_list ≡ outline p.action_list ++ with_argument code optarg

  if-Adds :
      (b : Bool) (q q' : Parsed) (code code' : Option ActionCode)
      → Adds q code
      → Adds q' code'
      → Adds (if b then q else q') (if b then code else code')
  if-Adds true q q' code code' h h' = h
  if-Adds false q q' code code' h h' = h'

  nothing-Adds : Adds p none
  nothing-Adds = sym (append-nil (outline p.action_list))

  new_action-Adds : (code : ActionCode) → Adds (new_action code optarg p) (some code)
  unfolding new_action
  new_action-Adds code = outline-append p.action_list _

  changed-Adds :
      (f : Action → Action)
      → ((a : Action) → outline (f a ∷ []) ≡ outline (a ∷ []))
      → Adds (record p { action_list = change_last f p.action_list }) none
  changed-Adds f same = outline-change_last f same p.action_list ∙ nothing-Adds

  set_socket-Adds : Adds (set_socket optarg p) none
  unfolding set_socket
  set_socket-Adds = kept p.socket_set (ltb max_path (length optarg + 1))
    where
      kept :
          (b b' : Bool)
          → Adds
              (if b
                then p
                else if b'
                then p
                else record p { socket_path = some optarg; socket_set = true })
              none
      kept true b' = nothing-Adds
      kept false true = nothing-Adds
      kept false false = nothing-Adds

  one_option-Adds : (opt : ℕ) → Adds (one_option opt optarg p) (action_of opt)
  unfolding one_option later_option
  one_option-Adds opt = if-Adds (opt == b'f') _ _ _ _ set_socket-Adds (
      if-Adds (opt == b'p') _ _ _ _ nothing-Adds (
        if-Adds (opt == b't') _ _ _ _ (changed-Adds _ (λ a. refl)) (
          if-Adds (opt == b'a') _ _ _ _ (new_action-Adds append) (
            if-Adds (opt == b'W') _ _ _ _ (new_action-Adds write) (
              if-Adds (opt == b'w') _ _ _ _ (new_action-Adds write_dir) (
                if-Adds (opt == b'D') _ _ _ _ (changed-Adds _ (set_directory_same is_write optarg))
                  (if-Adds (opt == b'r') _ _ _ _ (new_action-Adds read) (
                    if-Adds (opt == b'R') _ _ _ _ (new_action-Adds read_n) (
                      if-Adds (opt == b'd') _ _ _ _
                        (changed-Adds _ (set_directory_same is_read optarg))
                        (if-Adds (opt == b'l') _ _ _ _ (new_action-Adds lock) (
                          if-Adds (opt == b'u') _ _ _ _ (new_action-Adds unlock) (
                            if-Adds (opt == b'c') _ _ _ _ (new_action-Adds remove)
                              nothing-Adds))))))))))))

-- Options without `-h` are all parsed, with the result 0, and each option that asks for an action adds
-- one at the end of the list, with its argument; the others change no code and no argument.
pub parse_options-requested :
    (options : List Opt) (p : Parsed)
    → All (λ o. (o.0 == b'h') ≡ false) options
    → ((parse_options_in_list options p).0 ≡ pos 0)
      × (outline (parse_options_in_list options p).1.action_list
          ≡ outline p.action_list ++ requested options)
unfolding parse_options_in_list
parse_options-requested [] p h = (refl, sym (append-nil (outline p.action_list)))
parse_options-requested ((opt, optarg) ∷ options) p (no_help, others) =
    let (code, actions) = parse_options-requested options (one_option opt optarg p) others in
    let onward : parse_options_in_list ((opt, optarg) ∷ options) p
        ≡ parse_options_in_list options (one_option opt optarg p) =
      ap
        (λ b. elim b [
          | true ↦ (pos 1, p)
          | false ↦ parse_options_in_list options (one_option opt optarg p)
        ])
        no_help in
    (
      ap (λ r. r.0) onward ∙ code,
      ap (λ r. outline r.1.action_list) onward
          ∙ actions
          ∙ ap (λ l. l ++ requested options) (one_option-Adds optarg p opt)
          ∙ append_assoc (outline p.action_list) (with_argument (action_of opt) optarg)
              (requested options),
    )
