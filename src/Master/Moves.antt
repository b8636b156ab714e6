-- ===== src/Master/Moves.antt =====
-- server/server.c: a round of the main thread moves descriptors from place to place.
use file_storage_server.Base.{
  ℕ, zero, suc, ◌+◌, ◌≡◌, ◌≤◌, ◌<◌, ◌∙◌, Bool, true, not, ◌&&◌, ◌==◌, Option, none, some, List, [],
  ◌∷◌, ◌++◌, leb, if◌then◌else◌, arith, subst,
}
use file_storage_server.Base.Int.{ℤ, pos, negsuc, ltb_ℤ}
use file_storage_server.Outcome.{Outcome, ok, fault, Ends, if-Ends, then-Ends, when-Ends, map-Ends}
use file_storage_server.Master.{
  Master, Descriptors, fd_set, fd_clr, raise_max, lower_max, new_client, new_request, reinsert,
  read_back, visit_fd, visit_from, check_shutdown, stop_listening, main_round, fd_setsize,
}
use file_storage_server.Master.Places.{
  one, places, raise_max-places, stop_listening-places, new_client-places, new_request-places,
  back-places, dropped-places,
}

-- The master after a step: no descriptor is in more places, but for those that arrive, and the set has
-- still got the descriptors above `fd`.
pub record IsAfter (arrives : ℕ → ℕ) (fd : ℕ) (m m' : Master) : Type 0 where
  pub fewer : (x : ℕ) → places x m' ≤ places x m + arrives x
  pub still : (y : ℕ) → fd < y → m.set y ≡ true → m'.set y ≡ true

abbrev pub nobody : ℕ → ℕ
nobody x = 0

raise_max-set : (fd y : ℕ) (m : Master) → (raise_max fd m).set y ≡ m.set y
raise_max-set fd y m = ground arith

lower_max-set : (fd y : ℕ) (m : Master) → (lower_max fd m).set y ≡ m.set y
lower_max-set fd y m = ground arith

reinsert-from :
    (pipe : List ℤ) (low : ℕ) (m : Master)
    → Ends (IsAfter nobody low (record m { pipe = pipe })) (reinsert (record m { pipe = pipe }))
unfolding reinsert
reinsert-from [] low m = tt
reinsert-from (negsuc n ∷ rest) low m = record {
  fewer = λ x. omega (arith, dropped-places x n rest m);
  still = λ y h i. i;
}
reinsert-from (pos fd ∷ rest) low m =
    let after = fd_set fd (record m { pipe = rest }) in
    record {
      fewer = λ x.
          let h₁ = raise_max-places x fd after in
          let h₂ = back-places x fd rest m in omega (arith, h₁, h₂);
      still = λ y h i. raise_max-set fd y after ∙ ground (arith, i);
    }

reinsert-IsAfter : (low : ℕ) (m : Master) → Ends (IsAfter nobody low m) (reinsert m)
reinsert-IsAfter low m = reinsert-from m.pipe low m

trans-IsAfter :
    (arrives : ℕ → ℕ) (fd : ℕ) (m m' m'' : Master)
    → IsAfter arrives fd m m'
    → IsAfter nobody fd m' m''
    → IsAfter arrives fd m m''
trans-IsAfter arrives fd m m' m'' h k = record {
  fewer = λ x. omega (arith, h.fewer x, k.fewer x);
  still = λ y lt i. k.still y lt (h.still y lt i);
}

same-IsAfter : (fd : ℕ) (m : Master) → IsAfter nobody fd m m
same-IsAfter fd m = record { fewer = λ x. omega arith; still = λ y h i. i }

-- Who arrives when the socket is visited, and when `fd` is.
abbrev pub who : Option ℕ → ℕ → ℕ
who none x = 0
who (some client_fd) x = one (client_fd == x)

abbrev pub arrival : Descriptors → Option ℕ → ℕ → ℕ → ℕ
arrival d accepted fd x = if fd == d.socket_fd then who accepted x else 0

weaken-IsAfter :
    (arrives : ℕ → ℕ) (fd : ℕ) (m m' : Master) → IsAfter nobody fd m m' → IsAfter arrives fd m m'
weaken-IsAfter arrives fd m m' h = record { fewer = λ x. omega (arith, h.fewer x); still = h.still }

new_client-set : (fd y : ℕ) (m : Master) → m.set y ≡ true → (new_client fd m).set y ≡ true
unfolding new_client
new_client-set fd y m i = raise_max-set fd y (fd_set fd m) ∙ ground (arith, i)

new_request-IsAfter :
    (fd : ℕ) (m : Master) → m.set fd ≡ true → IsAfter nobody fd m (new_request fd m)
unfolding new_request
new_request-IsAfter fd m h = record {
  fewer = λ x. omega (arith, new_request-places x fd m h);
  still = λ y lt i.
      lower_max-set fd y (fd_clr fd (record m { request_queue = m.request_queue ++ pos fd ∷ [] }))
      ∙ ground (arith, i, lt);
}

module _ (d : Descriptors) (rdset : ℕ → Bool) where
  read_back-IsAfter :
      (accepted : Option ℕ) (fd low : ℕ) (m : Master)
      → Ends (IsAfter nobody low m) (read_back d rdset accepted fd m)
  unfolding read_back
  read_back-IsAfter accepted fd low m =
      if-Ends (IsAfter nobody low m) (rdset fd && rdset d.pipe_fd) (reinsert m) (ok m)
        (reinsert-IsAfter low m) (same-IsAfter low m)

  then_read_back :
      (accepted : Option ℕ) (arrives : ℕ → ℕ) (fd : ℕ) (m m' : Master)
      → IsAfter arrives fd m m'
      → Ends (IsAfter arrives fd m) (read_back d rdset accepted fd m')
  then_read_back accepted arrives fd m m' h =
      map-Ends (IsAfter nobody fd m') (IsAfter arrives fd m) (read_back d rdset accepted fd m')
        (read_back-IsAfter accepted fd fd m') (λ m''. trans-IsAfter arrives fd m m' m'' h)

  -- The socket is ready, and a client may arrive.
  accept-IsAfter :
      (accepted : Option ℕ) (fd : ℕ) (m : Master)
      → (fd == d.socket_fd) ≡ true
      → Ends (IsAfter (arrival d accepted fd) fd m) (elim accepted as (λ x. Outcome Master) [
        | none ↦ ok m
        | some client_fd ↦
            if leb fd_setsize client_fd
            then fault
            else read_back d rdset accepted fd (new_client client_fd m)
      ])
  accept-IsAfter none fd m self = weaken-IsAfter _ fd m m (same-IsAfter fd m)
  accept-IsAfter (some client_fd) fd m self = if-Ends _ (leb fd_setsize client_fd) fault _ tt (
      then_read_back (some client_fd) _ fd m (new_client client_fd m) (record {
        fewer = λ x. rw self (new_client-places x client_fd m);
        still = λ y lt i. new_client-set client_fd y m i;
      }))

  visit_fd-IsAfter :
      (accepted : Option ℕ) (fd : ℕ) (m : Master)
      → (rdset fd ≡ true → m.set fd ≡ true)
      → Ends (IsAfter (arrival d accepted fd) fd m) (visit_fd d rdset accepted fd m)
  unfolding visit_fd
  visit_fd-IsAfter accepted fd m h =
      when-Ends _ (rdset fd && not (fd == d.pipe_fd)) _ _
        (λ is.
          when-Ends _ ((fd == d.socket_fd) && (m.set d.socket_fd && m.accept_connection)) _ _
            (λ socket. accept-IsAfter accepted fd m (ground (arith, socket)))
            (λ other. then_read_back accepted _ fd m (new_request fd m) (
              weaken-IsAfter _ fd m (new_request fd m)
                (new_request-IsAfter fd m (h (ground (arith, is)))))))
        (λ isnt. then_read_back accepted _ fd m m (weaken-IsAfter _ fd m m (same-IsAfter fd m)))

-- Who may still arrive from `fd` on.
abbrev due : Descriptors → Option ℕ → ℕ → ℕ → ℕ
due d accepted fd x = if leb fd d.socket_fd then who accepted x else 0

due-arrival :
    (d : Descriptors) (accepted : Option ℕ) (fd x : ℕ)
    → due d accepted fd x ≡ arrival d accepted fd x + due d accepted (fd + 1) x
due-arrival d accepted fd x = ground arith

module _ (d : Descriptors) (rdset : ℕ → Bool) (accepted : Option ℕ) where
  visit_from-fewer :
      (fuel fd : ℕ) (m : Master)
      → ((y : ℕ) → fd ≤ y → rdset y ≡ true → m.set y ≡ true)
      → Ends
          (λ m'. (x : ℕ) → places x m' ≤ places x m + due d accepted fd x)
          (visit_from d rdset accepted fuel fd m)
  unfolding visit_from
  visit_from-fewer zero fd m h = λ x. omega arith
  visit_from-fewer (suc fuel) fd m h =
      if-Ends _ (ltb_ℤ m.fd_max (pos fd)) (ok m) _ (λ x. omega arith)
        (then-Ends (IsAfter (arrival d accepted fd) fd m) _ (visit_fd d rdset accepted fd m)
          (visit_from d rdset accepted fuel (fd + 1))
          (visit_fd-IsAfter d rdset accepted fd m (h fd (omega arith)))
          λ m' step.
            map-Ends (λ m''. (x : ℕ) → places x m'' ≤ places x m' + due d accepted (fd + 1) x) _
              (visit_from d rdset accepted fuel (fd + 1) m')
              (visit_from-fewer fuel (fd + 1) m'
                (λ y lt ready. step.still y (omega (arith, lt)) (h y (omega (arith, lt)) ready)))
              (λ m'' k x. omega (arith, k x, step.fewer x, due-arrival d accepted fd x)))

check_shutdown-places : (x : ℕ) (m : Master) → places x (check_shutdown m) ≡ places x m
unfolding places
check_shutdown-places x m = ground arith

-- Where the loop goes on, no descriptor is in more places, but for the one that arrived.
abbrev Within : Option ℕ → Master → Option Master → Type 0
Within accepted m none = Unit
Within accepted m (some m') = (x : ℕ) → places x m' ≤ places x m + who accepted x

-- `select` leaves in `rdset` only what is in the set.
main_round-Ends :
    (d : Descriptors) (rdset : ℕ → Bool) (accepted : Option ℕ) (m : Master)
    → ((y : ℕ) → rdset y ≡ true → m.set y ≡ true)
    → Ends (Within accepted m) (main_round d (some rdset) accepted m)
unfolding main_round
main_round-Ends d rdset accepted m ready =
    if-Ends (Within accepted m) (rdset d.signal_fd) (ok (some (stop_listening d m))) _
      (λ x. omega (arith, stop_listening-places d x m))
      (then-Ends (λ m'. (x : ℕ) → places x m' ≤ places x m + due d accepted 0 x) (Within accepted m)
        (visit_from d rdset accepted fd_setsize 0 m) _
        (visit_from-fewer d rdset accepted fd_setsize 0 m (λ y lt. ready y))
        λ m' h x.
          let all : due d accepted 0 x ≤ who accepted x = ground arith in
          omega (arith, h x, check_shutdown-places x m', all))

pub main_round-places :
    (d : Descriptors) (rdset : ℕ → Bool) (accepted : Option ℕ) (m m' : Master)
    → ((y : ℕ) → rdset y ≡ true → m.set y ≡ true)
    → main_round d (some rdset) accepted m ≡ ok (some m')
    → (x : ℕ) → places x m' ≤ places x m + who accepted x
main_round-places d rdset accepted m m' ready e =
    subst (Ends (Within accepted m)) e (main_round-Ends d rdset accepted m ready)
