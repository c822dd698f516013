-- ===== src/SimpleLog/FileAppender.antt =====
-- `FileAppender` of src/simple_log.h and src/simple_log.cpp. The files are a map from their paths to
-- their bytes, and a stream is the path that it is open on: nobody else renames or removes the file.
-- A section under `writelock` is one step. Writing behind a buffer and the overflow of an `int` fault.
use ehttp.Base.{
  ◌>>=◌, ℕ, ◌+◌, ◌-◌, ◌*◌, ◌/◌, Bool, true, false, List, [], ◌∷◌, ◌++◌, Option, none, some, ℤ, pos,
  negsuc, same_int, if◌then◌else◌, ltb, leb, ◌==◌, Bytes, codes, length, take, is_empty,
}
use ehttp.Std.Decimal.{show_nat, pad}
use ehttp.Std.OrdMap
use ehttp.Std.Order.{bytes_ord}
use ehttp.Std.Stream.{before}

abbrev pub max_single_log_size : ℕ
max_single_log_size = 2048

abbrev pub one_day_seconds : ℕ
one_day_seconds = 86400

-- `struct tm`
pub record Tm : Type 0 where
  pub tm_year : ℕ
  pub tm_mon : ℕ
  pub tm_mday : ℕ
  pub tm_hour : ℕ
  pub tm_min : ℕ
  pub tm_sec : ℕ

-- What the system answers: `localtime_r`, whether `mkdir` makes a directory or finds it, and whether
-- a path can be opened.
pub record Platform : Type 0 where
  pub localtime : ℤ → Option Tm
  pub makes : Bytes → Bool
  pub opens : Bytes → Bool

-- `struct timeval` and `tz_minuteswest` of `struct timezone`.
pub record Moment : Type 0 where
  pub tv_sec : ℕ
  pub tv_usec : ℕ
  pub tz_minuteswest : ℤ

pub record FileAppender : Type 0 where
  pub fs : Option Bytes
  pub log_file : Bytes
  pub log_dir : Bytes
  pub log_file_path : Bytes
  pub last_sec : ℕ
  pub is_inited : Bool
  pub retain_day : ℤ

abbrev pub Files : Type 0
Files = List (Bytes × Bytes)

-- The appender with the files of the system.
pub record Store : Type 0 where
  pub appender : FileAppender
  pub files : Files

abbrev pub new_appender : FileAppender
new_appender = record {
  fs = none;
  log_file = [];
  log_dir = [];
  log_file_path = [];
  last_sec = 0;
  is_inited = false;
  retain_day = negsuc 0;
}

-- `s.c_str()`, as the functions of C read it.
abbrev pub c_str : Bytes → Bytes
c_str s = before 0 s

-- Opening to append makes a file that is missing.
unfoldable pub touch : Bytes → Files → Files
touch path files = elim (OrdMap.find path files) [
  | none ↦ OrdMap.insert path [] files
  | some _ ↦ files
]

-- `rename(from, to)`
unfoldable pub rename : Bytes → Bytes → Files → Files
rename from to files = elim (OrdMap.find from files) [
  | none ↦ files
  | some text ↦ OrdMap.insert to text (OrdMap.erase from files)
]

-- What is written at the end of an open file.
unfoldable pub append_to : Bytes → Bytes → Files → Files
append_to path bytes files = elim (OrdMap.find path files) [
  | none ↦ files
  | some text ↦ OrdMap.insert path (text ++ bytes) files
]

-- `_fs.open(_log_file_path.c_str(), out | app)`
unfoldable pub open_log : Platform → Store → Store
open_log os s =
    let path = c_str s.appender.log_file_path in
    if os.opens path
    then record { appender = record s.appender { fs = some path }; files = touch path s.files }
    else record s { appender = record s.appender { fs = none } }

unfoldable pub init : Platform → Bytes → Bytes → Store → ℤ × Store
init os dir log_file s =
    let made = if is_empty dir then true else os.makes (c_str dir) in
    let dir' = if is_empty dir then codes "." else dir in
    let s1 = open_log os (record s {
      appender = record s.appender {
        log_dir = dir';
        log_file = log_file;
        log_file_path = dir' ++ (codes "/" ++ log_file);
      };
    }) in
    if made
    then (pos 0, record s1 { appender = record s1.appender { is_inited = true } })
    else (negsuc 0, record s { appender = record s.appender { is_inited = true } })

-- The line for a formatted text: `vsnprintf` writes a byte less than its size and the stream stops
-- at a zero byte.
abbrev pub single_log : Bytes → Bytes
single_log text = c_str (take (max_single_log_size - 2) text) ++ 10 ∷ []

unfoldable pub write_log : Bytes → Store → Store
write_log text s = elim s.appender.fs [
  | none ↦ s
  | some path ↦ record s { files = append_to path (single_log text) s.files }
]

-- `sprintf` to a buffer of `size` bytes.
unfoldable pub in_buffer : ℕ → Bytes → Option Bytes
in_buffer size text = if ltb (length text) size then some text else none

-- `%s.%04d-%02d-%02d`, with the day apart.
unfoldable pub dated_file : Bytes → Tm → ℕ → Bytes
dated_file file tm day =
    c_str file
    ++ (codes "."
        ++ (pad 4 (show_nat (tm.tm_year + 1900))
            ++ (codes "-"
                ++ (pad 2 (show_nat (tm.tm_mon + 1)) ++ (codes "-" ++ pad 2 (show_nat day))))))

-- `a - b` on a `long`.
unfoldable pub minus : ℕ → ℕ → ℤ
minus a b = if leb b a then pos (a - b) else negsuc (b - a - 1)

-- Behind the name for yesterday.
unfoldable pub shift_to : Platform → Bytes → Store → ℤ × Store
shift_to os new_file s =
    let new_file_path = c_str (s.appender.log_dir ++ (codes "/" ++ new_file)) in
    let renamed = rename (c_str s.appender.log_file_path) new_file_path s.files in
    if OrdMap.has new_file_path s.files
    then (pos 0, s)
    else (pos 1, open_log os (record s { files = renamed }))

unfoldable pub shift_file : Platform → ℕ → Store → Option (ℤ × Store)
shift_file os tv_sec s = elim (os.localtime (minus tv_sec one_day_seconds)) [
  | none ↦ some (negsuc 0, s)
  | some tm ↦ in_buffer 100 (dated_file s.appender.log_file tm tm.tm_mday) >>= λ new_file.
      some (shift_to os new_file s)
]

-- `remove(_log_dir + "/" + old_file)`
unfoldable pub remove_log : Bytes → Store → ℤ × Store
remove_log old_file s =
    let old_file_path = c_str (s.appender.log_dir ++ (codes "/" ++ old_file)) in
    if OrdMap.has old_file_path s.files
    then (pos 0, record s { files = OrdMap.erase old_file_path s.files })
    else (negsuc 0, s)

-- `delete_old_log` for a positive number of days; a day of the month is at least 1.
unfoldable pub delete_before : Platform → ℕ → ℕ → Store → Option (ℤ × Store)
delete_before os tv_sec days s = elim (os.localtime (minus tv_sec (days * 3600 * 24))) [
  | none ↦ some (negsuc 0, s)
  | some tm ↦ in_buffer 100 (dated_file s.appender.log_file tm (tm.tm_mday - 1)) >>= λ old_file.
      some (remove_log old_file s)
]

unfoldable pub delete_retained : Platform → ℕ → ℤ → Store → Option (ℤ × Store)
delete_retained os tv_sec (negsuc _) s = some (pos 0, s)
delete_retained os tv_sec (pos days) s =
    if days == 0
    then some (pos 0, s)
    else if ltb 2147483647 (days * 3600 * 24)
    then none
    else delete_before os tv_sec days s

unfoldable pub delete_old_log : Platform → ℕ → Store → Option (ℤ × Store)
unfolding delete_retained
delete_old_log os tv_sec s = delete_retained os tv_sec s.appender.retain_day s

-- `sec - tz.tz_minuteswest * 60`
unfoldable pub fix_sec : ℕ → ℤ → ℤ
fix_sec sec (pos west) = minus sec (west * 60)
fix_sec sec (negsuc east) = pos (sec + (east + 1) * 60)

-- `sec / ONE_DAY_SECONDS`, which rounds towards zero.
unfoldable pub day_of : ℤ → ℤ
day_of (pos sec) = pos (sec / one_day_seconds)
day_of (negsuc sec) = minus 0 ((sec + 1) / one_day_seconds)

abbrev pub set_last_sec : ℕ → Store → Store
set_last_sec sec s = record s { appender = record s.appender { last_sec = sec } }

unfoldable pub shift_file_if_need : Platform → Moment → Store → Option (ℤ × Store)
shift_file_if_need os now s =
    let today = day_of (fix_sec now.tv_sec now.tz_minuteswest) in
    let last = day_of (fix_sec s.appender.last_sec now.tz_minuteswest) in
    let shifted = shift_file os now.tv_sec s >>= λ r.
    delete_old_log os now.tv_sec r.1 >>= λ d. some (r.0, set_last_sec now.tv_sec d.1) in
    if s.appender.last_sec == 0
    then some (pos 0, set_last_sec now.tv_sec s)
    else if same_int today last
    then some (pos 0, set_last_sec now.tv_sec s)
    else shifted

abbrev pub set_retain_day : ℤ → Store → Store
set_retain_day days s = record s { appender = record s.appender { retain_day = days } }

-- `~FileAppender`
abbrev pub close_log : Store → Store
close_log s = record s { appender = record s.appender { fs = none } }
