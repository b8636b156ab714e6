-- ===== src/Master/Log.antt =====
-- server/logger.c: which lines are logged, and where. A line is its level and its text, without the
-- time, the file and the line number in front of it.
use file_storage_server.Base.{ℕ, Bool, Option, none, some, List, [], ◌∷◌, ◌++◌, leb, if◌then◌else◌}
use file_storage_server.Outcome.{Outcome, ok, fault}
use file_storage_server.Utilities.{CString}

pub data LogLevel : Type 0 where
  log_fatal log_error log_info log_warning log_debug : LogLevel

unfoldable pub level_code : LogLevel → ℕ
level_code log_fatal = 0
level_code log_error = 1
level_code log_info = 2
level_code log_warning = 3
level_code log_debug = 4

-- The stream that `log_file` points to: NULL, a file, or the error output.
pub data Stream : Type 0 where
  null stderr : Stream
  file : CString → Stream

-- `closed` is the files that were closed.
pub record Log : Type 0 where
  pub log_level : LogLevel
  pub log_file : Stream
  pub lines : List (Stream × (LogLevel × CString))
  pub closed : List Stream

abbrev set_file : Stream → Log → Log
set_file stream l = record l { log_file = stream }

abbrev close_stream : Stream → Log → Log
close_stream (file path) l = record l { closed = l.closed ++ file path ∷ [] }
close_stream stderr l = l
close_stream null l = l

-- `opens` is whether `fopen` gives a file for the path.
unfoldable pub log_init : (CString → Bool) → Option CString → Log → Log
log_init opens none l =
    set_file stderr (close_stream l.log_file (record l { log_level = log_info }))
log_init opens (some []) l =
    set_file stderr (close_stream l.log_file (record l { log_level = log_info }))
log_init opens (some (c ∷ cs)) l =
    set_file (if opens (c ∷ cs) then file (c ∷ cs) else stderr) (record l { log_level = log_info })

abbrev pub set_log_level : LogLevel → Log → Log
set_log_level level l = record l { log_level = level }

-- A line through a `log_file` that is NULL is undefined.
unfoldable pub write_line : LogLevel → CString → Log → Outcome Log
write_line level text l = elim l.log_file [
  | null ↦ fault
  | stderr ↦ ok (record l { lines = l.lines ++ (stderr, (level, text)) ∷ [] })
  | file path ↦ ok (record l { lines = l.lines ++ (file path, (level, text)) ∷ [] })
]

-- `logfatal` logs whatever the level is.
unfoldable pub logfatal : CString → Log → Outcome Log
unfolding write_line
logfatal text l = write_line log_fatal text l

-- `logerror`, `loginfo`, `logwarning` and `logdebug`: a line of a level above that of the log is left
-- out.
unfoldable pub log_line : LogLevel → CString → Log → Outcome Log
unfolding level_code write_line
log_line level text l =
    if leb (level_code level) (level_code l.log_level) then write_line level text l else ok l

-- The error output is closed too.
unfoldable pub close_log : Log → Outcome Log
close_log l = elim l.log_file [
  | null ↦ fault
  | stderr ↦ ok (record l { log_file = null; closed = l.closed ++ stderr ∷ [] })
  | file path ↦ ok (record l { log_file = null; closed = l.closed ++ file path ∷ [] })
]
