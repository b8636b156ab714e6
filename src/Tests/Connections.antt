-- ===== src/Tests/Connections.antt =====
-- The main thread with a first client.
use file_storage_server.Base.{
  ℕ, ◌≡◌, ◌≤◌, ◌==◌, refl, sym, subst, false, true, Option, none, some, [], ◌∷◌, arith, ==_iff,
}
use file_storage_server.Base.Int.{pos, ◌+ℤ◌, ◌-ℤ◌, ltb_ℤ}
use file_storage_server.Outcome.{Outcome, ok, fault, blocked}
use file_storage_server.Master.{
  Master, Descriptors, main_start, main_round, visit_from, visit_fd, read_back, new_client,
  new_request,
}
use file_storage_server.Master.Threads.{sighup, handle_signal, next_request}
use file_storage_server.Master.Places.{places}
use file_storage_server.Master.Crew.{all_places, Shifts-IsOnce}
use file_storage_server.Master.Crew
use file_storage_server.Master.Turns.{start, next, round, signal, Turns-IsCounted}

abbrev descriptors : Descriptors
descriptors = record { signal_fd = 3; pipe_fd = 4; socket_fd = 5 }

abbrev pub started : Master
started = main_start descriptors 6

abbrev round_of : Outcome (Option Master) → Master
round_of (ok (some m)) = m
round_of (ok none) = started
round_of fault = started
round_of blocked = started

-- The socket is ready, and `accept` gives the descriptor 7.
abbrev joined : Master
joined = round_of (main_round descriptors (some (λ n. n == 5)) (some 7) started)

Turns-IsCounted_example : ltb_ℤ joined.max_connections joined.current_connections ≡ false
unfolding main_start main_round visit_from visit_fd read_back new_client new_request ◌+ℤ◌ ◌-ℤ◌
    handle_signal
Turns-IsCounted_example =
    Turns-IsCounted {d = descriptors} {m = started}
      {m' = record joined { accept_connection = false }}
      (next (next start (round (λ n. n == 5) (some 7) refl)) (signal joined (some sighup))) refl

joined_one : joined.current_connections ≡ pos 1
unfolding main_start main_round visit_from visit_fd read_back new_client new_request ◌+ℤ◌ ◌-ℤ◌
joined_one = refl

-- The client at 7 sends a request, and a worker takes it.
abbrev asked : Master
asked = round_of (main_round descriptors (some (λ n. n == 7)) none joined)

abbrev taken : Master
taken = record asked { request_queue = [] }

socket_in : (y : ℕ) → (y == 5) ≡ true → started.set y ≡ true
unfolding main_start
socket_in y h = ground (arith, h)

new_7 : (x : ℕ) → some 7 ≡ some x → all_places x (record { master = started; serving = [] }) ≡ 0
unfolding main_start places
new_7 x e =
    let same : 7 ≡ x = ground (arith, e) in
    subst (λ y. all_places y (record { master = started; serving = [] }) ≡ 0) same refl

client_in : (y : ℕ) → (y == 7) ≡ true → joined.set y ≡ true
unfolding main_start main_round visit_from visit_fd read_back new_client new_request ◌+ℤ◌ ◌-ℤ◌
client_in y h = subst (λ z. joined.set z ≡ true) (sym ((==_iff y 7).0 h)) refl

Shifts-IsOnce_example : all_places 7 (record { master = taken; serving = 7 ∷ [] }) ≤ 1
unfolding main_start main_round visit_from visit_fd read_back new_client new_request ◌+ℤ◌ ◌-ℤ◌
    next_request
Shifts-IsOnce_example =
    Shifts-IsOnce descriptors 6 (record { master = taken; serving = 7 ∷ [] })
      (Crew.next
        (Crew.next (Crew.next Crew.start (Crew.round (λ n. n == 5) (some 7) socket_in new_7 refl))
          (Crew.round (λ n. n == 7) none client_in (λ x e. absurd (ground (arith, e))) refl))
        (Crew.take 7 refl))
      7
