-- ===== src/Utilities/Waits.antt =====
-- utils/utilities.c: how long `msleep` sleeps.
use file_storage_server.Base.{ℕ, ◌+◌, ◌*◌, ◌<◌, ◌≡◌, refl, List, [], ◌∷◌, arith}
use file_storage_server.Base.Int.{pos}
use file_storage_server.Outcome.{ok}
use file_storage_server.Utilities.Host.{timespec_of, Slept, over, interrupted, sleep_loop, msleep}

abbrev pub nanoseconds : ℕ × ℕ → ℕ
nanoseconds (s, ns) = s * 1000000000 + ns

timespec-exact :
    (msec : ℕ)
    → (nanoseconds (timespec_of msec) ≡ msec * 1000000) × ((timespec_of msec).1 < 1000000000)
timespec-exact msec = (omega arith, omega arith)

-- The calls of `nanosleep` are interrupted with these times left, and the last sleeps to its end.
abbrev pub until_over : List (ℕ × ℕ) → List Slept
until_over [] = over ∷ []
until_over (left ∷ lefts) = interrupted left ∷ until_over lefts

sleep_loop-asked :
    (ts : ℕ × ℕ) (lefts : List (ℕ × ℕ)) → sleep_loop ts (until_over lefts) ≡ ok (pos 0, ts ∷ lefts)
unfolding sleep_loop
sleep_loop-asked ts [] = refl
sleep_loop-asked ts (left ∷ lefts) = rw (sleep_loop-asked left lefts)

-- `msleep` of a number of milliseconds that is not negative first asks for exactly as many
-- nanoseconds, in a valid `timespec`; after each interruption it asks for the time that was left,
-- and it returns 0 when a sleep comes to its end.
pub msleep-asks :
    (msec : ℕ) (lefts : List (ℕ × ℕ))
    → (ts : ℕ × ℕ) × (msleep (pos msec) (until_over lefts) ≡ ok (pos 0, ts ∷ lefts))
      × (nanoseconds ts ≡ msec * 1000000)
      × (ts.1 < 1000000000)
unfolding msleep
msleep-asks msec lefts = (
  timespec_of msec,
  sleep_loop-asked (timespec_of msec) lefts,
  (timespec-exact msec).0,
  (timespec-exact msec).1,
)
