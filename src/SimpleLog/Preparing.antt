-- ===== src/SimpleLog/Preparing.antt =====
-- The log of src/simple_log.cpp before a line is written to it: shifted on a new day, or as it was.
use ehttp.Base.{
  ℕ, ◌≤◌, ◌≡◌, refl, ap, ◌∙◌, ◌⊎◌, inl, inr, true, Bool-cases, some, ℤ, pos, same_int, ◌==◌, Bytes,
  length,
}
use ehttp.SimpleLog.FileAppender.{
  Tm, Platform, Moment, Store, c_str, one_day_seconds, minus, shift_to, shift_file, dated_file,
  day_of, fix_sec, set_last_sec, shift_file_if_need,
}
use ehttp.SimpleLog.Rotation.{IsCivil, IsOpen, IsShifted, keeps_all, path_of, shift_to_taken}
use ehttp.SimpleLog.Shift.{
  shift_file_lem, shift_to-IsShifted, shift_file_if_need_day, shift_file_if_need_same,
}
use ehttp.Std.OrdMap
use ehttp.Std.Order.{bytes_ord}

-- The log before a line is written: as it was, or shifted, with the time of the last line set.
abbrev pub IsPrepared : ℕ → Bytes → Store → Store → Type 0
IsPrepared sec old s r =
    (r ≡ set_last_sec sec s)
    ⊎ ((new_path : Bytes) × ((s1 : Store) × (IsShifted old new_path s s1
            × (r ≡ set_last_sec sec s1))))

pub prepared :
    (os : Platform) (now : Moment) (old : Bytes) (tm : Tm) (s : Store)
    → IsOpen old s
    → os.opens (c_str s.appender.log_file_path) ≡ true
    → keeps_all s.appender.retain_day ≡ true
    → length s.appender.log_file ≤ 88
    → os.localtime (minus now.tv_sec one_day_seconds) ≡ some tm
    → IsCivil tm
    → (r : ℤ × Store) × ((shift_file_if_need os now s ≡ some r) × IsPrepared now.tv_sec old s r.1)
prepared os now old tm s v opens kept short yesterday civil =
    elim (Bool-cases (s.appender.last_sec == 0)) [
      | inl e ↦ (_, (shift_file_if_need_same os now s (inl e), inl refl))
      | inr e ↦ elim (Bool-cases (same_int today last)) [
        | inl f ↦ (_, (shift_file_if_need_same os now s (inr f), inl refl))
        | inr f ↦ elim (Bool-cases (OrdMap.has (path_of name s) s.files)) [
          | inl g ↦ (
            _,
            (
              shift_file_if_need_day os now s (pos 0, s) e f
                  (named ∙ ap some (shift_to_taken os name s g)) kept,
              inl refl,
            ),
          )
          | inr g ↦
              let shifted = shift_to-IsShifted os name old s v opens g in
              (
                _,
                (
                  shift_file_if_need_day os now s (shift_to os name s) e f named
                      (ap (λ a. keeps_all a.retain_day) shifted.same_appender ∙ kept),
                  inr (path_of name s, ((shift_to os name s).1, (shifted, refl))),
                ),
              )
        ]
      ]
    ]
  where
    today : ℤ
    today = day_of (fix_sec now.tv_sec now.tz_minuteswest)

    last : ℤ
    last = day_of (fix_sec s.appender.last_sec now.tz_minuteswest)

    name : Bytes
    name = dated_file s.appender.log_file tm tm.tm_mday

    named : shift_file os now.tv_sec s ≡ some (shift_to os name s)
    named = shift_file_lem os now.tv_sec tm s yesterday civil short
