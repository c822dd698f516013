-- ===== src/SimpleLog/Levels.antt =====
-- The levels of src/simple_log.cpp, what a reload of the configuration changes, and the lines of a day.
use ehttp.Base.{
  ◌>>=◌, ℕ, ◌≡◌, refl, sym, ap, ◌∙◌, inl, inr, true, false, List, [], ◌∷◌, ◌++◌, append_assoc,
  append-nil, Option, Option-cases, some, ℤ, pos, negsuc, same_int, if◌then◌else◌, ltb, leb, Bytes,
  codes, arith, All, map, same_bytes, same_bytes→eq,
}
use mathlib.Core.Path.{subst}
use ehttp.SimpleLog.FileAppender.{
  Platform, Moment, Store, c_str, single_log, day_of, fix_sec, set_last_sec, set_retain_day,
  write_log,
}
use ehttp.SimpleLog.Keeping.{log_text_file, write_log-IsOpen, IsOpen-set_last_sec}
use ehttp.SimpleLog.Log.{
  Log, error_level, warn_level, info_level, debug_level, get_log_level, set_log_level,
  get_show_time, log_text, log_error, log_warn, log_info, log_debug, config, retain, use_log_file,
  apply_configs, check_config_file,
}
use ehttp.SimpleLog.Rotation.{IsOpen}
use ehttp.SimpleLog.Shift.{shift_file_if_need_same}
use ehttp.Std.Decimal.{atoi}
use ehttp.Std.Stream.{before}
use ehttp.StringUtils.{tolower, same_ignoring_case}

-- The four calls that log, by their level.
pub data Level : Type 0 where
  error warn info debug : Level

abbrev pub rank : Level → ℕ
rank error = error_level
rank warn = warn_level
rank info = info_level
rank debug = debug_level

abbrev pub level_name : Level → Bytes
level_name error = codes "ERROR"
level_name warn = codes "WARN"
level_name info = codes "INFO"
level_name debug = codes "DEBUG"

abbrev pub log_at : Level → Platform → Moment → Bytes → Log → Option Log
log_at error = log_error
log_at warn = log_warn
log_at info = log_info
log_at debug = log_debug

-- A text does not spell two names.
spells_one :
    (s a b : Bytes)
    → same_ignoring_case s a ≡ true
    → same_ignoring_case a b ≡ false
    → same_ignoring_case s b ≡ false
unfolding same_ignoring_case
spells_one s a b h k =
    ap (λ t. same_bytes t (map tolower (before 0 b)))
      (same_bytes→eq (map tolower (before 0 s)) (map tolower (before 0 a)) h)
    ∙ k

-- A name is none of those that are tried before it.
abbrev Differs : Bytes → List Bytes → Type 0
Differs name = All (λ other. same_ignoring_case name other ≡ false)

names_differ :
    Differs (codes "WARN") (codes "ERROR" ∷ [])
    × (Differs (codes "INFO") (codes "ERROR" ∷ codes "WARN" ∷ [])
        × Differs (codes "DEBUG") (codes "ERROR" ∷ codes "WARN" ∷ codes "INFO" ∷ []))
unfolding same_ignoring_case before tolower
names_differ = ((refl, tt), ((refl, (refl, tt)), (refl, (refl, (refl, tt)))))

get_log_level-level_name :
    (s : Bytes) (set : Level)
    → same_ignoring_case s (level_name set) ≡ true
    → get_log_level s ≡ rank set
unfolding get_log_level
get_log_level-level_name s error h = rw h
get_log_level-level_name s warn h =
    rw (spells_one s (codes "WARN") (codes "ERROR") h names_differ.0.0, h)
get_log_level-level_name s info h = rw (
  spells_one s (codes "INFO") (codes "ERROR") h names_differ.1.0.0,
  spells_one s (codes "INFO") (codes "WARN") h names_differ.1.0.1.0,
  h,
)
get_log_level-level_name s debug h = rw (
  spells_one s (codes "DEBUG") (codes "ERROR") h names_differ.1.1.0,
  spells_one s (codes "DEBUG") (codes "WARN") h names_differ.1.1.1.0,
  spells_one s (codes "DEBUG") (codes "INFO") h names_differ.1.1.1.1.0,
  h,
)

log_at_lem :
    (level : Level) (os : Platform) (now : Moment) (text : Bytes) (l : Log)
    → log_at level os now text l
      ≡ (if ltb l.log_level (rank level) then some l else log_text os now text l)
unfolding log_error log_warn log_info log_debug
log_at_lem error os now text l = refl
log_at_lem warn os now text l = refl
log_at_lem info os now text l = refl
log_at_lem debug os now text l = refl

-- When the level was set by its name, in any case of its letters, a call logs its text if its level
-- is at most the one that was set, in the order error, warn, info, debug, and does nothing if it is
-- above.
pub log_at-set_log_level :
    (set level : Level) (os : Platform) (now : Moment) (text level_str : Bytes) (l : Log)
    → same_ignoring_case level_str (level_name set) ≡ true
    → let l' = set_log_level level_str l in
      log_at level os now text l'
      ≡ (if leb (rank level) (rank set) then log_text os now text l' else some l')
unfolding set_log_level
log_at-set_log_level set level os now text level_str l h =
    log_at_lem level os now text _
    ∙ ap
        (λ n.
          if ltb n (rank level)
          then some (set_log_level level_str l)
          else log_text os now text (set_log_level level_str l))
        (get_log_level-level_name level_str set h)
    ∙ flipped (rank set) (rank level) _ _
  where
    flipped :
        {A : Type 0} (a b : ℕ) (x y : A) → (if ltb a b then x else y) ≡ (if leb b a then y else x)
    flipped a b x y = ground arith

retain-set_retain_day :
    (rd : Bytes) (s : Store) → (days : ℤ) × (retain rd s ≡ set_retain_day days s)
unfolding retain
retain-set_retain_day [] s = (s.appender.retain_day, refl)
retain-set_retain_day (c ∷ rd) s = (atoi (c_str (c ∷ rd)), refl)

use_log_file-is_inited :
    (os : Platform) (dir log_file : Bytes) (l : Log)
    → l.store.appender.is_inited ≡ true
    → let r = use_log_file os dir log_file l in (r.0 ≡ pos 0) × ((r.1).store ≡ l.store)
unfolding use_log_file
use_log_file-is_inited os dir [] l h = (refl, refl)
use_log_file-is_inited os dir (c ∷ log_file) l h = (ground (arith, h), ground (arith, h))

apply_configs-is_inited :
    (os : Platform) (configs : List (Bytes × Bytes)) (l : Log)
    → l.store.appender.is_inited ≡ true
    → let r = apply_configs os configs l in
      (r.0 ≡ pos 0) × ((days : ℤ) × ((r.1).store ≡ set_retain_day days l.store))
unfolding apply_configs set_log_level
apply_configs-is_inited os [] l h = (refl, (l.store.appender.retain_day, refl))
apply_configs-is_inited os (entry ∷ configs) l h =
    let (days, e) = retain-set_retain_day (config (codes "retain_day") (entry ∷ configs)) l.store in
    let used =
      use_log_file-is_inited os (config (codes "log_dir") (entry ∷ configs))
        (config (codes "log_file") (entry ∷ configs)) _ (ap (λ s. s.appender.is_inited) e ∙ h) in
    (used.0, (days, used.1 ∙ e))

-- A reload on an appender that was initialised returns 0 and leaves its stream, its paths and the files
-- as they are, whatever the configuration has: of the appender only the days of retention may change.
pub check_config_file-is_inited :
    (os : Platform) (l : Log)
    → l.store.appender.is_inited ≡ true
    → let r = check_config_file os l in
      (r.0 ≡ pos 0) × ((days : ℤ) × ((r.1).store ≡ set_retain_day days l.store))
unfolding check_config_file
check_config_file-is_inited os l h = apply_configs-is_inited os _ l h

-- Lines logged one after the other.
abbrev pub log_lines : Platform → List (Moment × Bytes) → Log → Option Log
log_lines os [] l = some l
log_lines os ((now, text) ∷ lines) l = log_text os now text l >>= log_lines os lines

-- The bytes of the lines.
abbrev pub bytes_of : Platform → List (Moment × Bytes) → Bytes
bytes_of os [] = []
bytes_of os ((now, text) ∷ lines) =
    single_log (get_show_time os now ++ (codes " " ++ text)) ++ bytes_of os lines

-- A time on a day, in the zone `west`.
abbrev pub IsOnDay : ℤ → ℤ → Moment × Bytes → Type 0
IsOnDay west day (now, text) =
    (now.tz_minuteswest ≡ west) × (day_of (fix_sec now.tv_sec west) ≡ day)

same_int_refl : (n : ℤ) → same_int n n ≡ true
same_int_refl (pos n) = ground arith
same_int_refl (negsuc n) = ground arith

last_sec-write_log :
    (text : Bytes) (s : Store) → (write_log text s).appender.last_sec ≡ s.appender.last_sec
unfolding write_log
last_sec-write_log text s = elim (Option-cases s.appender.fs) [
  | inl e ↦ ground (arith, e)
  | inr (path, e) ↦ ground (arith, e)
]

-- The lines of a day, in one time zone, on a log that is open and used and whose last line is of the
-- same day: no code faults, and the file has its old bytes and then the lines, in their order.
pub log_lines-bytes_of :
    (os : Platform) (west day : ℤ) (lines : List (Moment × Bytes)) (old : Bytes) (l : Log)
    → l.use_file_appender ≡ true
    → IsOpen old l.store
    → day_of (fix_sec l.store.appender.last_sec west) ≡ day
    → All (IsOnDay west day) lines
    → (r : Log) × ((log_lines os lines l ≡ some r) × IsOpen (old ++ bytes_of os lines) r.store)
log_lines-bytes_of os west day [] old l used v last h =
    (l, (refl, subst (λ o. IsOpen o l.store) (sym (append-nil old)) v))
log_lines-bytes_of os west day ((now, text) ∷ lines) old l used v last ((zone, today), h) =
    let same = shift_file_if_need_same os now l.store (
      inr (
        ap
          (λ z.
            same_int (day_of (fix_sec now.tv_sec z)) (day_of (fix_sec l.store.appender.last_sec z)))
          zone
        ∙ ap (λ d. same_int d (day_of (fix_sec l.store.appender.last_sec west))) today
        ∙ ap (same_int day) last
        ∙ same_int_refl day)) in
    let ran = log_text_file os now text l _ used same in
    let fin_text = get_show_time os now ++ (codes " " ++ text) in
    let l' = record l { store = write_log fin_text (set_last_sec now.tv_sec l.store) } in
    let v' = write_log-IsOpen fin_text old _ (IsOpen-set_last_sec old now.tv_sec l.store v) in
    let (r, (e, w)) =
      log_lines-bytes_of os west day lines (old ++ single_log fin_text) l' used v'
        (ap (λ n. day_of (fix_sec n west))
            (last_sec-write_log fin_text (set_last_sec now.tv_sec l.store))
          ∙ today)
        h in
    (
      r,
      (
        ap (λ o. o >>= log_lines os lines) ran ∙ e,
        subst (λ o. IsOpen o r.store) (append_assoc old (single_log fin_text) (bytes_of os lines))
            w,
      ),
    )
