-- ===== src/Utilities/Host.antt =====
-- utils/utilities.c: `msleep`, `mkdir_p`, `writen` and `is_number`. The system calls that they make
-- are parameters.
use file_storage_server.Base.{
  ℕ, zero, suc, ◌*◌, ◌/◌, ◌%◌, ◌-◌, Bool, true, false, Option, none, some, List, [], ◌∷◌, ◌++◌, ltb,
  ◌==◌, if◌then◌else◌, length,
}
use file_storage_server.Base.Int.{ℤ, pos, negsuc}
use file_storage_server.Outcome.{Outcome, ok, fault, blocked, and_then}
use file_storage_server.Utilities.{CString}

-- What `mkdir` does: 0, -1 with EEXIST, or -1 with another error.
pub data MkDir : Type 0 where
  made exists refused : MkDir

abbrev pub slash : ℕ
slash = 47

abbrev pub path_max : ℕ
path_max = 4096

-- Run the second if the first did not return.
abbrev pub and_next : {D : Type 0} → Bool × D → (D → Bool × D) → Bool × D
and_next (true, d) k = k d
and_next (false, d) k = (false, d)

module _ {D : Type 0} (mkdir : CString → D → MkDir × D) where
  -- One call of `mkdir` and the test behind it; `false` is the return of -1.
  unfoldable pub try_mkdir : CString → D → Bool × D
  try_mkdir path d =
      let (r, d') = mkdir path d in
      elim r [ made ↦ (true, d') | exists ↦ (true, d') | refused ↦ (false, d') ]

  -- The loop, on the bytes from `p` on; `front` is what stands before them.
  unfoldable pub mkdir_loop : CString → CString → D → Bool × D
  unfolding try_mkdir
  mkdir_loop front [] d = (true, d)
  mkdir_loop front (c ∷ cs) d =
      and_next (if c == slash then try_mkdir front d else (true, d))
        (mkdir_loop (front ++ c ∷ []) cs)

  -- On the empty path the loop would start behind the NUL, which was never written.
  unfoldable pub mkdir_p : CString → D → Outcome (ℤ × D)
  unfolding mkdir_loop try_mkdir
  mkdir_p [] d = fault
  mkdir_p (c ∷ cs) d =
      if ltb (path_max - 1) (length (c ∷ cs))
      then ok (negsuc 0, d)
      else (let r = and_next (mkdir_loop (c ∷ []) cs d) (try_mkdir (c ∷ cs)) in
          ok (if r.0 then pos 0 else negsuc 0, r.1))

-- The `timespec` of `msleep`, in seconds and nanoseconds.
abbrev pub timespec_of : ℕ → ℕ × ℕ
timespec_of msec = (msec / 1000, msec % 1000 * 1000000)

-- What `nanosleep` does: it sleeps to the end, it is interrupted with the time that remains, or it
-- fails.
pub data Slept : Type 0 where
  over failed : Slept
  interrupted : ℕ × ℕ → Slept

-- The loop of `msleep` on the results of the calls of `nanosleep`; the list of what it asked for.
-- The list of results ends where the thread sleeps on.
unfoldable pub sleep_loop : ℕ × ℕ → List Slept → Outcome (ℤ × List (ℕ × ℕ))
sleep_loop ts [] = blocked
sleep_loop ts (over ∷ rest) = ok (pos 0, ts ∷ [])
sleep_loop ts (failed ∷ rest) = ok (negsuc 0, ts ∷ [])
sleep_loop ts (interrupted left ∷ rest) = and_then (sleep_loop left rest) (λ r. ok (r.0, ts ∷ r.1))

unfoldable pub msleep : ℤ → List Slept → Outcome (ℤ × List (ℕ × ℕ))
unfolding sleep_loop
msleep (negsuc n) results = ok (negsuc 0, [])
msleep (pos msec) results = sleep_loop (timespec_of msec) results

-- `writen`, on what the calls of `write` return; `none` is -1. `nleft` never passes `n`.
unfoldable pub write_loop : ℕ → ℕ → List (Option ℕ) → Outcome ℤ
write_loop n zero results = ok (pos n)
write_loop n (suc nleft) [] = blocked
write_loop n (suc nleft) (none ∷ results) =
    ok (if suc nleft == n then negsuc 0 else pos (n - suc nleft))
write_loop n (suc nleft) (some zero ∷ results) = ok (pos (n - suc nleft))
write_loop n (suc nleft) (some (suc written) ∷ results) = write_loop n (nleft - written) results

unfoldable pub writen : ℕ → List (Option ℕ) → Outcome ℤ
unfolding write_loop
writen n results = write_loop n n results
