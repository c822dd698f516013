-- ===== src/SimpleLog/Log.antt =====
-- The levels, the configuration and the calls of src/simple_log.cpp. A call gets the text that its
-- format and arguments print; `now` is what `gettimeofday` gives. `signal` is left out.
use ehttp.Base.{
  ◌>>=◌, ℕ, ◌+◌, ◌/◌, Bool, true, List, ◌∷◌, ◌++◌, [], Option, none, some, ℤ, pos, if◌then◌else◌,
  ltb, Bytes, codes, is_empty,
}
use ehttp.SimpleConfig.{get_config_map}
use ehttp.SimpleLog.FileAppender.{
  Platform, Moment, Files, Store, c_str, init, write_log, shift_file_if_need, set_retain_day,
}
use ehttp.Std.Decimal.{atoi, show_nat, pad}
use ehttp.Std.OrdMap
use ehttp.Std.Order.{bytes_ord}
use ehttp.StringUtils.{same_ignoring_case}

abbrev pub error_level : ℕ
error_level = 1

abbrev pub warn_level : ℕ
warn_level = 2

abbrev pub info_level : ℕ
info_level = 3

abbrev pub debug_level : ℕ
debug_level = 4

-- The variables of the file, the files and the bytes that were printed.
pub record Log : Type 0 where
  pub log_level : ℕ
  pub g_dir : Bytes
  pub g_config_file : Bytes
  pub use_file_appender : Bool
  pub store : Store
  pub stdout : Bytes

-- `_get_log_level`
unfoldable pub get_log_level : Bytes → ℕ
get_log_level level_str =
    if same_ignoring_case level_str (codes "ERROR")
    then error_level
    else if same_ignoring_case level_str (codes "WARN")
    then warn_level
    else if same_ignoring_case level_str (codes "INFO")
    then info_level
    else if same_ignoring_case level_str (codes "DEBUG")
    then debug_level
    else debug_level

unfoldable pub set_log_level : Bytes → Log → Log
set_log_level level l = record l { log_level = get_log_level level }

-- `_get_show_time`: the 23 bytes of a date and a time fit the buffer.
unfoldable pub get_show_time : Platform → Moment → Bytes
get_show_time os tv = elim (os.localtime (pos tv.tv_sec)) [
  | none ↦ codes "unkonw time"
  | some tm ↦
      pad 4 (show_nat (tm.tm_year + 1900))
      ++ (codes "-"
          ++ (pad 2 (show_nat (tm.tm_mon + 1))
              ++ (codes "-"
                  ++ (pad 2 (show_nat tm.tm_mday)
                      ++ (codes " "
                          ++ (pad 2 (show_nat tm.tm_hour)
                              ++ (codes ":"
                                  ++ (pad 2 (show_nat tm.tm_min)
                                      ++ (codes ":"
                                          ++ (pad 2 (show_nat tm.tm_sec)
                                              ++ (codes "."
                                                  ++ pad 3 (show_nat (tv.tv_usec / 1000)))))))))))))
]

-- `_log`, where the time holds no conversion and is printed as it is.
unfoldable pub log_text : Platform → Moment → Bytes → Log → Option Log
log_text os now text l =
    let fin_text = get_show_time os now ++ (codes " " ++ text) in
    let written = shift_file_if_need os now l.store >>= λ r.
    some (record l { store = write_log fin_text r.1 }) in
    if l.use_file_appender
    then written
    else some (record l { stdout = l.stdout ++ (text ++ 10 ∷ []) })

unfoldable pub log_error : Platform → Moment → Bytes → Log → Option Log
log_error os now text l = if ltb l.log_level error_level then some l else log_text os now text l

unfoldable pub log_warn : Platform → Moment → Bytes → Log → Option Log
log_warn os now text l = if ltb l.log_level warn_level then some l else log_text os now text l

unfoldable pub log_info : Platform → Moment → Bytes → Log → Option Log
log_info os now text l = if ltb l.log_level info_level then some l else log_text os now text l

unfoldable pub log_debug : Platform → Moment → Bytes → Log → Option Log
log_debug os now text l = if ltb l.log_level debug_level then some l else log_text os now text l

-- `configs[key]`: a key that is missing has the empty text.
unfoldable pub config : Bytes → List (Bytes × Bytes) → Bytes
config key configs = elim (OrdMap.find key configs) [ none ↦ [] | some value ↦ value ]

-- `if (!rd.empty()) g_file_appender.set_retain_day(atoi(rd.c_str()))`
unfoldable pub retain : Bytes → Store → Store
retain rd s = if is_empty rd then s else set_retain_day (atoi (c_str rd)) s

-- `if (!log_file.empty())`
unfoldable pub use_log_file : Platform → Bytes → Bytes → Log → ℤ × Log
use_log_file os dir log_file l =
    let inited = init os dir log_file l.store in
    if is_empty log_file
    then (pos 0, l)
    else if l.store.appender.is_inited
    then (pos 0, record l { use_file_appender = true })
    else (inited.0, record l { use_file_appender = true; store = inited.1 })

unfoldable pub apply_configs : Platform → List (Bytes × Bytes) → Log → ℤ × Log
apply_configs os configs l =
    let l1 = set_log_level (config (codes "log_level") configs) l in
    let l2 = record l1 { store = retain (config (codes "retain_day") configs) l1.store } in
    if is_empty configs
    then (pos 0, l)
    else use_log_file os (config (codes "log_dir") configs) (config (codes "log_file") configs) l2

-- What the configuration file has, if it opens.
unfoldable pub read_file : Platform → Bytes → Files → Option Bytes
read_file os path files = if os.opens path then OrdMap.find path files else none

-- `_check_config_file`, which the signal SIGUSR1 calls as well.
unfoldable pub check_config_file : Platform → Log → ℤ × Log
check_config_file os l =
    let path = c_str (l.g_dir ++ (codes "/" ++ l.g_config_file)) in
    apply_configs os (get_config_map (read_file os path l.store.files) []).1 l

unfoldable pub log_init : Platform → Bytes → Bytes → Log → ℤ × Log
log_init os dir file l = check_config_file os (record l { g_dir = dir; g_config_file = file })
