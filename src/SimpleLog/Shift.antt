-- ===== src/SimpleLog/Shift.antt =====
-- What `shift_file` and `shift_file_if_need` of src/simple_log.cpp make of a log that is open.
use ehttp.Base.{
  ℕ, ◌+◌, ◌≤◌, ◌<◌, ◌≡◌, refl, sym, ap, ◌∙◌, ◌⊎◌, inl, inr, true, false, Bool-cases, [], ◌∷◌, ◌++◌,
  Option-cases, none, some, ℤ, pos, negsuc, same_int, lt→ltb, ◌==◌, Bytes, codes, length, arith,
  length-append,
}
use mathlib.Core.Path.{subst}
use ehttp.SimpleLog.FileAppender.{
  Tm, Platform, Moment, Files, Store, c_str, one_day_seconds, in_buffer, dated_file, minus,
  shift_to, shift_file, delete_retained, delete_old_log, day_of, fix_sec, set_last_sec,
  shift_file_if_need,
}
use ehttp.SimpleLog.Rotation.{
  IsCivil, IsOpen, IsShifted, keeps_all, path_of, find-shifted, shifted-IsSorted, shift_to_free,
  reopened,
}
use ehttp.Std.Decimal.{show_nat, pad, length-pad, length-show_nat}
use ehttp.Std.OrdMap
use ehttp.Std.Order.{bytes_ord, same_key_refl}
use ehttp.Std.Stream.{before}

length-before_le : (d : ℕ) (s : Bytes) → length (before d s) ≤ length s
unfolding before
length-before_le d [] = omega arith
length-before_le d (c ∷ s) = ground (arith, length-before_le d s)

length-dated_file :
    (file : Bytes) (tm : Tm) (day : ℕ)
    → IsCivil tm
    → day ≤ 31
    → length (dated_file file tm day) ≤ length file + 11
unfolding dated_file
length-dated_file file tm day v h =
    let year = pad 4 (show_nat (tm.tm_year + 1900)) in
    let month = pad 2 (show_nat (tm.tm_mon + 1)) in
    let year_len : length year ≡ 4 =
      length-pad 4 _ (length-show_nat 3 (tm.tm_year + 1900) (omega (arith, v.year))) in
    let month_len : length month ≡ 2 =
      length-pad 2 _ (length-show_nat 1 (tm.tm_mon + 1) (omega (arith, v.month))) in
    let day_len : length (pad 2 (show_nat day)) ≡ 2 =
      length-pad 2 _ (length-show_nat 1 day (omega arith)) in
    omega (
      arith,
      length-before_le 0 file,
      year_len,
      month_len,
      day_len,
      length-append (c_str file)
          (codes "." ++ (year ++ (codes "-" ++ (month ++ (codes "-" ++ pad 2 (show_nat day)))))),
      length-append year (codes "-" ++ (month ++ (codes "-" ++ pad 2 (show_nat day)))),
      length-append month (codes "-" ++ pad 2 (show_nat day)),
    )

in_buffer_fits : (size : ℕ) (text : Bytes) → length text < size → in_buffer size text ≡ some text
unfolding in_buffer
in_buffer_fits size text h = rw (lt→ltb (length text) size h)

-- The name for yesterday fits the buffer.
pub shift_file_lem :
    (os : Platform) (sec : ℕ) (tm : Tm) (s : Store)
    → os.localtime (minus sec one_day_seconds) ≡ some tm
    → IsCivil tm
    → length s.appender.log_file ≤ 88
    → shift_file os sec s ≡ some (shift_to os (dated_file s.appender.log_file tm tm.tm_mday) s)
unfolding shift_file shift_to
shift_file_lem os sec tm s e v h = rw (
  shift_file,
  e,
  in_buffer_fits 100 (dated_file s.appender.log_file tm tm.tm_mday)
      (omega (arith, length-dated_file s.appender.log_file tm tm.tm_mday v v.day)),
)

find-none : (p : Bytes) (files : Files) → OrdMap.has p files ≡ false → OrdMap.find p files ≡ none
find-none p files h = elim (Option-cases (OrdMap.find p files)) [
  | inl e ↦ e
  | inr (t, e) ↦ absurd (ground (arith, ap OrdMap.is_some e, h))
]

pub shift_to-IsShifted :
    (os : Platform) (new_file old : Bytes) (s : Store)
    → IsOpen old s
    → os.opens (c_str s.appender.log_file_path) ≡ true
    → OrdMap.has (path_of new_file s) s.files ≡ false
    → IsShifted old (path_of new_file s) s (shift_to os new_file s).1
shift_to-IsShifted os new_file old s v opens free =
    let path = c_str s.appender.log_file_path in
    let look = find-shifted path (path_of new_file s) s.files old v.sorted v.holds free in
    subst (λ r. IsShifted old (path_of new_file s) s r)
      (sym (ap (λ r. r.1) (shift_to_free os new_file s free opens)))
      (record {
        is_open = record {
          opened = refl;
          sorted = shifted-IsSorted path (path_of new_file s) s.files old v.sorted v.holds free;
          holds = look path ∙ rw (same_key_refl path);
        };
        same_appender = reopened s v.opened;
        free = find-none (path_of new_file s) s.files free;
        found = look;
      })

delete_old_log_none :
    (os : Platform) (sec : ℕ) (s : Store)
    → keeps_all s.appender.retain_day ≡ true
    → delete_old_log os sec s ≡ some (pos 0, s)
unfolding delete_old_log delete_retained
delete_old_log_none os sec s h = none_deleted s.appender.retain_day h
  where
    none_deleted :
        (days : ℤ) → keeps_all days ≡ true → delete_retained os sec days s ≡ some (pos 0, s)
    none_deleted (pos days) e = rw e
    none_deleted (negsuc days) e = refl

-- On another day than the last line, with no retention time, the file of yesterday is shifted.
pub shift_file_if_need_day :
    (os : Platform) (now : Moment) (s : Store) (r : ℤ × Store)
    → (s.appender.last_sec == 0) ≡ false
    → same_int
        (day_of (fix_sec now.tv_sec now.tz_minuteswest))
        (day_of (fix_sec s.appender.last_sec now.tz_minuteswest))
      ≡ false
    → shift_file os now.tv_sec s ≡ some r
    → keeps_all ((r.1).appender.retain_day) ≡ true
    → shift_file_if_need os now s ≡ some (r.0, set_last_sec now.tv_sec r.1)
unfolding shift_file_if_need
shift_file_if_need_day os now s r e f g h =
    rw (e, f, g) (rw (delete_old_log_none os now.tv_sec r.1 h) refl)

pub shift_file_if_need_same :
    (os : Platform) (now : Moment) (s : Store)
    → ((s.appender.last_sec == 0) ≡ true)
      ⊎ (same_int
            (day_of (fix_sec now.tv_sec now.tz_minuteswest))
            (day_of (fix_sec s.appender.last_sec now.tz_minuteswest))
          ≡ true)
    → shift_file_if_need os now s ≡ some (pos 0, set_last_sec now.tv_sec s)
unfolding shift_file_if_need
shift_file_if_need_same os now s (inl e) = rw e
shift_file_if_need_same os now s (inr e) = elim (Bool-cases (s.appender.last_sec == 0)) [
  | inl f ↦ rw f
  | inr f ↦ rw (f, e)
]
