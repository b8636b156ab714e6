-- ===== src/Master/Places.antt =====
-- server/server.c: where the descriptors of the clients are: in the set, in the queue or in the pipe.
use file_storage_server.Base.{
  ℕ, ◌+◌, ◌≡◌, ◌≤◌, refl, Bool, true, false, ◌==◌, List, [], ◌∷◌, ◌++◌, arith, inl, inr, Bool-cases,
  ==_iff,
}
use file_storage_server.Base.Int.{ℤ, pos, negsuc}
use file_storage_server.Master.{
  Master, Descriptors, fd_set, fd_clr, raise_max, lower_max, new_client, new_request,
  stop_listening,
}

abbrev pub one : Bool → ℕ
one true = 1
one false = 0

-- How often a descriptor stands in the queue, or in the pipe.
abbrev pub occurs : ℕ → List ℤ → ℕ
occurs x [] = 0
occurs x (pos y ∷ rest) = one (y == x) + occurs x rest
occurs x (negsuc n ∷ rest) = occurs x rest

-- In how many places of the main thread it is.
unfoldable pub places : ℕ → Master → ℕ
places x m = one (m.set x) + occurs x m.request_queue + occurs x m.pipe

pub occurs-append : (x : ℕ) (q r : List ℤ) → occurs x (q ++ r) ≡ occurs x q + occurs x r
occurs-append x [] r = omega arith
occurs-append x (pos y ∷ q) r = ground (arith, occurs-append x q r)
occurs-append x (negsuc n ∷ q) r = occurs-append x q r

pub raise_max-places : (x fd : ℕ) (m : Master) → places x (raise_max fd m) ≡ places x m
unfolding places
raise_max-places x fd m = ground arith

pub lower_max-places : (x fd : ℕ) (m : Master) → places x (lower_max fd m) ≡ places x m
unfolding places
lower_max-places x fd m = ground arith

pub fd_clr-places : (x fd : ℕ) (m : Master) → places x (fd_clr fd m) ≤ places x m
unfolding places
fd_clr-places x fd m = ground arith

pub fd_set-places : (x fd : ℕ) (m : Master) → places x (fd_set fd m) ≤ places x m + one (fd == x)
unfolding places
fd_set-places x fd m = ground arith

pub stop_listening-places :
    (d : Descriptors) (x : ℕ) (m : Master) → places x (stop_listening d m) ≤ places x m
unfolding stop_listening
stop_listening-places d x m =
    let less = lower_max d.signal_fd (fd_clr d.signal_fd m) in
    let h₁ = fd_clr-places x d.signal_fd m in
    let h₂ = lower_max-places x d.signal_fd (fd_clr d.signal_fd m) in
    let h₃ = fd_clr-places x d.socket_fd less in
    let h₄ = lower_max-places x d.socket_fd (fd_clr d.socket_fd less) in
    omega (arith, h₁, h₂, h₃, h₄)

new_client-same :
    (x fd : ℕ) (m : Master) → places x (new_client fd m) ≡ places x (raise_max fd (fd_set fd m))
unfolding new_client places
new_client-same x fd m = refl

pub new_client-places :
    (x fd : ℕ) (m : Master) → places x (new_client fd m) ≤ places x m + one (fd == x)
new_client-places x fd m =
    let h₁ = fd_set-places x fd m in
    let h₂ = raise_max-places x fd (fd_set fd m) in omega (arith, h₁, h₂, new_client-same x fd m)

-- A descriptor that is in the set moves to the queue.
moved-places :
    (x fd : ℕ) (m : Master)
    → m.set fd ≡ true
    → places x (fd_clr fd (record m { request_queue = m.request_queue ++ pos fd ∷ [] }))
      ≤ places x m
unfolding places
moved-places x fd m h = elim (Bool-cases (x == fd)) [
  | inl same ↦
      let one_fd : x ≡ fd = (==_iff x fd).0 same in
      ground (arith, same, one_fd, h, occurs-append x m.request_queue (pos fd ∷ []))
  | inr other ↦ ground (arith, other, occurs-append x m.request_queue (pos fd ∷ []))
]

pub new_request-places :
    (x fd : ℕ) (m : Master) → m.set fd ≡ true → places x (new_request fd m) ≤ places x m
unfolding new_request
new_request-places x fd m h =
    let after = fd_clr fd (record m { request_queue = m.request_queue ++ pos fd ∷ [] }) in
    let h₁ = lower_max-places x fd after in let h₂ = moved-places x fd m h in omega (arith, h₁, h₂)

-- A number leaves the pipe, and its descriptor is in the set then.
pub back-places :
    (x fd : ℕ) (rest : List ℤ) (m : Master)
    → places x (fd_set fd (record m { pipe = rest })) ≤ places x (record m { pipe = pos fd ∷ rest })
unfolding places
back-places x fd rest m = ground arith

pub dropped-places :
    (x n : ℕ) (rest : List ℤ) (m : Master)
    → places x (record m { pipe = rest }) ≡ places x (record m { pipe = negsuc n ∷ rest })
unfolding places
dropped-places x n rest m = refl
