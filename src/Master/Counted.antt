-- ===== src/Master/Counted.antt =====
-- server/server.c: the counters of the connections in a round of the main loop.
use file_storage_server.Base.{
  ℕ, zero, suc, ◌+◌, ◌≡◌, ltb, leb, Bool, true, false, not, ◌&&◌, ◌==◌, Option, none, some, [], ◌∷◌,
  ◌++◌, if◌then◌else◌, inl, inr, Bool-cases, arith, subst,
}
use file_storage_server.Base.Int.{pos_part, neg_part, ℤ, pos, negsuc, ◌+ℤ◌, ◌-ℤ◌, ltb_ℤ, eq_ℕ}
use file_storage_server.Outcome.{Outcome, ok, fault, blocked, and_then, Ends, then-Ends, if-Ends}
use file_storage_server.Master.{
  Master, Descriptors, fd_set, fd_clr, raise_max, lower_max, new_client, new_request, reinsert,
  read_back, visit_fd, visit_from, check_shutdown, stop_listening, main_round, fd_setsize,
}

-- No more connections than the highest number that was seen.
abbrev pub IsCounted : Master → Type 0
IsCounted m = ltb_ℤ m.max_connections m.current_connections ≡ false

if-IsCounted :
    (b : Bool) (m m' : Master) → IsCounted m → IsCounted m' → IsCounted (if b then m else m')
if-IsCounted true m m' h h' = h
if-IsCounted false m m' h h' = h'

raise_max-IsCounted : (fd : ℕ) (m : Master) → IsCounted m → IsCounted (raise_max fd m)
raise_max-IsCounted fd m h =
    if-IsCounted (ltb_ℤ m.fd_max (pos fd)) (record m { fd_max = pos fd }) m h h

lower_max-IsCounted : (fd : ℕ) (m : Master) → IsCounted m → IsCounted (lower_max fd m)
lower_max-IsCounted fd m h =
    if-IsCounted (eq_ℕ m.fd_max fd) (record m { fd_max = m.fd_max -ℤ pos 1 }) m h h

not_less : (n : ℕ) → ltb n n ≡ false
not_less n = ground arith

new_client-IsCounted : (fd : ℕ) (m : Master) → IsCounted (new_client fd m)
unfolding new_client
new_client-IsCounted fd m =
    higher (raise_max fd (fd_set fd m)).max_connections
      ((raise_max fd (fd_set fd m)).current_connections +ℤ pos 1)
  where
    higher : (most now : ℤ) → ltb_ℤ (if ltb_ℤ most now then now else most) now ≡ false
    higher most now = elim (Bool-cases (ltb_ℤ most now)) [
      | inl hit ↦ rw hit (not_less (pos_part now + neg_part now))
      | inr miss ↦ rw miss miss
    ]

new_request-IsCounted : (fd : ℕ) (m : Master) → IsCounted m → IsCounted (new_request fd m)
unfolding new_request
new_request-IsCounted fd m h =
    lower_max-IsCounted fd (fd_clr fd (record m { request_queue = m.request_queue ++ pos fd ∷ [] }))
      h

reinsert-IsCounted : (m : Master) → IsCounted m → Ends IsCounted (reinsert m)
unfolding reinsert
reinsert-IsCounted m h =
    elim m.pipe
      as (λ p. Ends IsCounted (elim p [
        | [] ↦ blocked
        | new_fd ∷ rest ↦ elim new_fd [
          | negsuc n ↦ ok (record m { pipe = rest })
          | pos fd ↦ ok (raise_max fd (fd_set fd (record m { pipe = rest })))
        ]
      ])) [
        | [] ↦ tt
        | new_fd ∷ rest ↦
            elim new_fd
              as (λ n. Ends IsCounted (elim n [
                | negsuc k ↦ ok (record m { pipe = rest })
                | pos fd ↦ ok (raise_max fd (fd_set fd (record m { pipe = rest })))
              ])) [
                | negsuc k ↦ h
                | pos fd ↦ raise_max-IsCounted fd (fd_set fd (record m { pipe = rest })) h
              ]
      ]

module _ (d : Descriptors) (rdset : ℕ → Bool) (accepted : Option ℕ) where
  read_back-IsCounted :
      (fd : ℕ) (m : Master) → IsCounted m → Ends IsCounted (read_back d rdset accepted fd m)
  unfolding read_back
  read_back-IsCounted fd m h =
      if-Ends IsCounted (rdset fd && rdset d.pipe_fd) (reinsert m) (ok m) (reinsert-IsCounted m h) h

  visit_fd-IsCounted :
      (fd : ℕ) (m : Master) → IsCounted m → Ends IsCounted (visit_fd d rdset accepted fd m)
  unfolding visit_fd
  visit_fd-IsCounted fd m h =
      if-Ends IsCounted (rdset fd && not (fd == d.pipe_fd)) _ _
        (if-Ends IsCounted ((fd == d.socket_fd) && (m.set d.socket_fd && m.accept_connection)) _ _
          (elim accepted
            as (λ o. Ends IsCounted (elim o [
              | none ↦ ok m
              | some client_fd ↦
                  if leb fd_setsize client_fd
                  then fault
                  else read_back d rdset accepted fd (new_client client_fd m)
            ])) [
              | none ↦ h
              | some client_fd ↦ if-Ends IsCounted (leb fd_setsize client_fd) fault _ tt (
                  read_back-IsCounted fd (new_client client_fd m)
                    (new_client-IsCounted client_fd m))
            ])
          (read_back-IsCounted fd (new_request fd m) (new_request-IsCounted fd m h)))
        (read_back-IsCounted fd m h)

  visit_from-IsCounted :
      (fuel fd : ℕ) (m : Master)
      → IsCounted m
      → Ends IsCounted (visit_from d rdset accepted fuel fd m)
  unfolding visit_from
  visit_from-IsCounted zero fd m h = h
  visit_from-IsCounted (suc fuel) fd m h = if-Ends IsCounted (ltb_ℤ m.fd_max (pos fd)) (ok m) _ h (
      then-Ends IsCounted IsCounted (visit_fd d rdset accepted fd m)
        (visit_from d rdset accepted fuel (fd + 1)) (visit_fd-IsCounted fd m h)
        (visit_from-IsCounted fuel (fd + 1)))

-- A round that goes on leaves the counters right.
abbrev IsCountedRound : Option Master → Type 0
IsCountedRound none = Unit
IsCountedRound (some m) = IsCounted m

check-IsCounted :
    (o : Outcome Master)
    → Ends IsCounted o
    → Ends IsCountedRound (and_then o (λ m. ok (some (check_shutdown m))))
check-IsCounted (ok m) h =
    if-IsCounted (not m.accept_connection && eq_ℕ m.current_connections 0)
      (record m { shutdown_now = true }) m h h
check-IsCounted fault h = tt
check-IsCounted blocked h = tt

stop_listening-IsCounted :
    (d : Descriptors) (m : Master) → IsCounted m → IsCounted (stop_listening d m)
unfolding stop_listening
stop_listening-IsCounted d m h =
    let m₁ : Master = lower_max d.signal_fd (fd_clr d.signal_fd m) in
    lower_max-IsCounted d.socket_fd (fd_clr d.socket_fd m₁)
      (lower_max-IsCounted d.signal_fd (fd_clr d.signal_fd m) h)

pub main_round-IsCounted :
    (d : Descriptors) (rdset : ℕ → Bool) (accepted : Option ℕ) (m m' : Master)
    → IsCounted m
    → main_round d (some rdset) accepted m ≡ ok (some m')
    → IsCounted m'
unfolding main_round
main_round-IsCounted d rdset accepted m m' h e = subst (Ends IsCountedRound) e (
    if-Ends IsCountedRound (rdset d.signal_fd) (ok (some (stop_listening d m))) _
      (stop_listening-IsCounted d m h)
      (check-IsCounted (visit_from d rdset accepted fd_setsize 0 m)
        (visit_from-IsCounted d rdset accepted fd_setsize 0 m h)))
