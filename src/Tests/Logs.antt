-- ===== src/Tests/Logs.antt =====
-- A log file over the end of a day.
use ehttp.Base.{
  ◌≡◌, refl, true, List, [], ◌∷◌, ◌++◌, some, ℤ, pos, negsuc, arith, Bytes, codes, if◌then◌else◌,
  leb,
}
use ehttp.SimpleLog.FileAppender.{
  Tm, Platform, Moment, FileAppender, Store, set_retain_day, single_log, day_of, fix_sec, minus,
}
use ehttp.SimpleLog.Keeping.{Keeps, log_text-Keeps}
use ehttp.SimpleLog.Levels.{
  warn, info, rank, log_at, log_at-set_log_level, check_config_file-is_inited, log_lines, bytes_of,
  log_lines-bytes_of,
}
use ehttp.SimpleLog.Log.{Log, set_log_level, get_show_time, log_text, check_config_file}
use ehttp.SimpleLog.Rotation.{IsOpen}
use ehttp.Std.OrdMap
use ehttp.Std.Order.{bytes_ord}
use ehttp.Std.Stream.{before}
use ehttp.StringUtils.{same_ignoring_case, tolower}

abbrev new_year : Tm
new_year = record { tm_year = 120; tm_mon = 0; tm_mday = 1; tm_hour = 0; tm_min = 0; tm_sec = 7 }

abbrev system : Platform
system = record { localtime = λ t. some new_year; makes = λ p. true; opens = λ p. true }

abbrev log_path : Bytes
log_path = codes "./e.log"

abbrev appender : FileAppender
appender = record {
  fs = some log_path;
  log_file = codes "e.log";
  log_dir = codes ".";
  log_file_path = log_path;
  last_sec = 100;
  is_inited = true;
  retain_day = negsuc 0;
}

abbrev open_store : Store
open_store = record { appender = appender; files = (log_path, codes "a") ∷ [] }

open_store-IsOpen : IsOpen (codes "a") open_store
unfolding before OrdMap.find
open_store-IsOpen = record { opened = refl; sorted = (tt, tt); holds = refl }

abbrev open_log_at : Log
open_log_at = record {
  log_level = 4;
  g_dir = codes ".";
  g_config_file = codes "c";
  use_file_appender = true;
  store = open_store;
  stdout = [];
}

abbrev next_day : Moment
next_day = record { tv_sec = 90000; tv_usec = 12000; tz_minuteswest = negsuc 479 }

abbrev same_day : Moment
same_day = record { tv_sec = 200; tv_usec = 0; tz_minuteswest = negsuc 479 }

abbrev two_lines : List (Moment × Bytes)
two_lines = (same_day, codes "b") ∷ (same_day, codes "c") ∷ []

log_text-Keeps_example :
    let line = single_log (get_show_time system next_day ++ (codes " " ++ codes "b")) in
    (r : Log) × ((log_text system next_day (codes "b") open_log_at ≡ some r)
      × Keeps (codes "a") line open_store r.store)
log_text-Keeps_example =
    log_text-Keeps system next_day (codes "b") (codes "a") new_year open_log_at refl
      open_store-IsOpen refl refl (omega arith) refl
      (record { year = omega arith; month = omega arith; day = omega arith })

log_lines-bytes_of_example :
    (r : Log) × ((log_lines system two_lines open_log_at ≡ some r)
      × IsOpen (codes "a" ++ bytes_of system two_lines) r.store)
unfolding day_of fix_sec minus
log_lines-bytes_of_example =
    log_lines-bytes_of system (negsuc 479) (pos 0) two_lines (codes "a") open_log_at refl
      open_store-IsOpen refl ((refl, refl), ((refl, refl), tt))

log_at-set_log_level_example :
    log_at info system same_day (codes "b") (set_log_level (codes "Warn") open_log_at) ≡ (
      if leb (rank info) (rank warn)
      then log_text system same_day (codes "b") (set_log_level (codes "Warn") open_log_at)
      else some (set_log_level (codes "Warn") open_log_at))
unfolding same_ignoring_case before tolower
log_at-set_log_level_example =
    log_at-set_log_level warn info system same_day (codes "b") (codes "Warn") open_log_at refl

check_config_file-is_inited_example :
    let r = check_config_file system open_log_at in
    (r.0 ≡ pos 0) × ((days : ℤ) × ((r.1).store ≡ set_retain_day days open_store))
check_config_file-is_inited_example = check_config_file-is_inited system open_log_at refl
