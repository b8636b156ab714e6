-- ===== src/Tests/Structures.antt =====
-- The lists, the hash map and the protocol at work on small inputs.
use file_storage_server.Base.{
  ℕ, ◌≡◌, refl, ap, replicate, length-replicate, none, some, List, [], ◌∷◌, ◌++◌, arith, ◌==◌,
  ==_iff, if◌then◌else◌, take, drop, length,
}
use file_storage_server.Base.Int.{pos, ◌+ℤ◌, ◌-ℤ◌}
use file_storage_server.Outcome.{ok}
use file_storage_server.LinkedList.{LinkedList, list_create, list_remove_element}
use file_storage_server.LinkedList.Chain.{IsWf}
use file_storage_server.LinkedList.Insert.{create-IsWf, appended, appended-IsWf}
use file_storage_server.LinkedList.Remove.{Removed, remove_element-erase}
use file_storage_server.HashMap.{
  HashMap, KeyOps, hash_map_create, hash_map_get, hash_map_insert, hash_map_remove, slot,
  find_entry, write_entry,
}
use file_storage_server.HashMap.Laws.{IsSized, create-IsSized, get-insert, get-remove}
use file_storage_server.Protocol.{
  max_path, Transport, IsReliable, Request, Response, send_request, send_response, recv_request,
  recv_response,
}
use file_storage_server.Protocol.RoundTrip.{IsAnswer, recv-send_request, recv-send_response}

-- The list of 5 and 6.
abbrev two : LinkedList ℕ
two = appended (appended list_create 1 5) 2 6

two-IsWf : IsWf two
unfolding list_create
two-IsWf =
    appended-IsWf (appended list_create 1 5) 2 6 (appended-IsWf list_create 1 5 create-IsWf refl)
      refl

remove_element-erase_example :
    Removed (λ a b. a == b) 6 two (list_remove_element (λ a b. a == b) two 6)
remove_element-erase_example = remove_element-erase (λ a b. a == b) 6 two two-IsWf

-- Keys that are their own pointers and hashes.
abbrev keys : KeyOps ℕ ℕ
keys = record { read = λ p. some p; hash_function = λ k. k; key_cmp = λ a b. a == b }

abbrev bare : HashMap ℕ ℕ
bare = hash_map_create 4

bare-IsSized : IsSized bare
bare-IsSized = create-IsSized 4 (ground arith)

abbrev one_entry : HashMap ℕ ℕ
one_entry = record {
  n_buckets = 4;
  n_entries = pos 1;
  buckets = [] ∷ (record { key = 9; value = 30 } ∷ []) ∷ [] ∷ [] ∷ [];
}

insert_9 : hash_map_insert keys bare 9 30 ≡ ok one_entry
unfolding hash_map_insert hash_map_create write_entry ◌+ℤ◌
insert_9 = refl

get-insert_example :
    hash_map_get keys one_entry 5 ≡ (if 9 == 5 then ok (some 30) else hash_map_get keys bare 5)
get-insert_example = get-insert keys bare bare-IsSized 9 5 9 30 one_entry ==_iff refl insert_9

-- 5 shares the bucket of 9.
abbrev two_entries : HashMap ℕ ℕ
two_entries = record {
  n_buckets = 4;
  n_entries = pos 2;
  buckets =
      [] ∷ (record { key = 9; value = 30 } ∷ record { key = 5; value = 31 } ∷ []) ∷ [] ∷ [] ∷ [];
}

abbrev none_left : HashMap ℕ ℕ
none_left = record { n_buckets = 4; n_entries = pos 1; buckets = [] ∷ [] ∷ [] ∷ [] ∷ [] }

remove_9 : hash_map_remove keys two_entries 9 ≡ ok (some 30, none_left)
unfolding hash_map_remove find_entry ◌-ℤ◌
remove_9 = refl

get-remove_example : hash_map_get keys none_left 5 ≡ (
    if slot keys two_entries 9 == slot keys two_entries 5
    then ok none
    else hash_map_get keys two_entries 5)
get-remove_example =
    get-remove keys two_entries (record { some_bucket = refl; sized = refl }) 9 5 30 none_left
      remove_9

-- A stream that keeps what is written.
abbrev pub pipe : Transport
pipe = record { write = λ s xs. some (s ++ xs); read = λ n s. some (take n s, drop n s) }

parts :
    (xs more : List ℕ)
    → let want : List ℕ × List ℕ = (xs, more) in
      let got : List ℕ × List ℕ = (take (length xs) (xs ++ more), drop (length xs) (xs ++ more)) in
      got ≡ want
parts [] [] = refl
parts [] (x ∷ more) = refl
parts (x ∷ xs) more = ap (λ q. (x ∷ q.0, q.1)) (parts xs more)

pub pipe-IsReliable : IsReliable pipe
pipe-IsReliable = record {
  write_appends = λ s xs. refl;
  read_exact = λ xs more. ap some (parts xs more);
}

abbrev asked : Request
asked = record {
  type = 106;
  path_len = 0;
  file_path = [];
  body_size = 4;
  body = 2 ∷ 0 ∷ 0 ∷ 0 ∷ [];
}

recv-send_request_example :
    ((send_request pipe (pos 4) asked []).0 ≡ pos 0)
    × (recv_request pipe (pos 5) ((send_request pipe (pos 4) asked []).1 ++ 7 ∷ [])
        ≡ some (asked, 7 ∷ []))
recv-send_request_example = recv-send_request pipe pipe-IsReliable 4 5 asked (7 ∷ []) (record {
  type_fits = ground arith;
  path_sized = refl;
  path_fits = ground arith;
  body_sized = refl;
  body_fits = ground arith;
})

abbrev pub given : Response
given = record {
  status = 0;
  status_phrase = replicate max_path 32;
  path_len = 2;
  file_path = 97 ∷ 0 ∷ [];
  body_size = 1;
  body = 255 ∷ [];
}

pub given-IsAnswer : IsAnswer given
given-IsAnswer = record {
  status_fits = ground arith;
  phrase_sized = length-replicate {A = ℕ} max_path 32;
  path_sized = refl;
  path_fits = ground arith;
  body_sized = refl;
  body_fits = ground arith;
}

recv-send_response_example :
    ((send_response pipe (pos 4) given []).0 ≡ pos 0)
    × (recv_response pipe (pos 5) ((send_response pipe (pos 4) given []).1 ++ 7 ∷ [])
        ≡ some (given, 7 ∷ []))
recv-send_response_example =
    recv-send_response pipe pipe-IsReliable 4 5 given (7 ∷ []) given-IsAnswer
