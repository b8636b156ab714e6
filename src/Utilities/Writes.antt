-- ===== src/Utilities/Writes.antt =====
-- utils/utilities.c: how much `writen` writes.
use file_storage_server.Base.{
  ℕ, zero, suc, ◌+◌, ◌-◌, ◌≤◌, ◌<◌, ◌≡◌, ap, ◌∙◌, Option, none, some, List, [], ◌∷◌, ◌==◌,
  if◌then◌else◌, arith, inl, inr, Bool, true, false, ◌++◌, Bool-cases, map,
}
use file_storage_server.Base.Int.{ℤ, pos, negsuc}
use file_storage_server.Outcome.{ok}
use file_storage_server.Utilities.Host.{write_loop, writen}

abbrev pub sum : List ℕ → ℕ
sum [] = 0
sum (n ∷ ns) = n + sum ns

-- Each call of `write` writes at least a byte.
abbrev pub IsProgress : List ℕ → Type 0
IsProgress [] = Unit
IsProgress (n ∷ ns) = (0 < n) × IsProgress ns

-- A call of `write` that fails, or writes nothing, and what `writen` returns then, when `sent` bytes
-- were written before.
abbrev pub no_progress : Bool → Option ℕ
no_progress fails = if fails then none else some 0

abbrev pub stopped : Bool → ℕ → ℤ
stopped fails sent = if fails then (if sent == 0 then negsuc 0 else pos sent) else pos sent

write_loop-progress :
    (n nleft : ℕ) (ns : List ℕ) (rest : List (Option ℕ))
    → IsProgress ns
    → sum ns ≤ nleft
    → write_loop n nleft (map some ns ++ rest) ≡ write_loop n (nleft - sum ns) rest
unfolding write_loop
write_loop-progress n nleft [] rest p h =
    let e : nleft ≡ nleft - 0 = omega arith in ap (λ k. write_loop n k rest) e
write_loop-progress n zero (zero ∷ ns) rest (p, ps) h = absurd (omega arith)
write_loop-progress n zero (suc m ∷ ns) rest (p, ps) h = absurd (omega arith)
write_loop-progress n (suc nleft) (zero ∷ ns) rest (p, ps) h = absurd (omega arith)
write_loop-progress n (suc nleft) (suc m ∷ ns) rest (p, ps) h =
    let e : nleft - m - sum ns ≡ suc nleft - (suc m + sum ns) = omega arith in
    write_loop-progress n (nleft - m) ns rest ps (omega arith) ∙ ap (λ k. write_loop n k rest) e

-- Where the calls of `write` write some bytes each, no more in all than there are: `writen` returns
-- the number of all the bytes once they are written; if a call fails or writes nothing before that,
-- it returns the number written until then, or -1 where the first call fails.
pub writen-sum :
    (n : ℕ) (ns : List ℕ) (fails : Bool) (rest : List (Option ℕ))
    → IsProgress ns
    → sum ns ≤ n
    → (sum ns ≡ n → writen n (map some ns ++ rest) ≡ ok (pos n))
      × (sum ns < n
          → writen n (map some ns ++ no_progress fails ∷ rest) ≡ ok (stopped fails (sum ns)))
unfolding writen
writen-sum n ns fails rest p h = (
  λ whole.
      let e : n - sum ns ≡ 0 = omega arith in
      write_loop-progress n n ns rest p h ∙ ap (λ k. write_loop n k rest) e,
  λ part.
      write_loop-progress n n ns (no_progress fails ∷ rest) p h
      ∙ stop (n - sum ns) fails (omega arith) (omega arith),
)
  where
    stop :
        (nleft : ℕ) (fails : Bool)
        → 0 < nleft
        → nleft + sum ns ≡ n
        → write_loop n nleft (no_progress fails ∷ rest) ≡ ok (stopped fails (sum ns))
    stop zero fails some_left e = absurd (omega arith)
    stop (suc nleft) true some_left e =
        let sent : n - suc nleft ≡ sum ns = omega arith in
        elim (Bool-cases (sum ns == 0)) [
          | inl hit ↦ ground (arith, hit, sent, e)
          | inr miss ↦ ground (arith, miss, sent, e)
        ]
    stop (suc nleft) false some_left e = ap (λ k. ok (pos k)) (omega arith)
