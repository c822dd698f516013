-- ===== src/SimpleLog/Rotation.antt =====
-- The rotation of src/simple_log.cpp: `shift_file` and `shift_file_if_need` on a log that is open.
use ehttp.Base.{
  ◌≤◌, ◌≡◌, sym, ap, ◌∙◌, inl, inr, Bool, true, false, Bool-cases, [], ◌++◌, none, some, ℤ, pos,
  negsuc, if◌then◌else◌, ◌==◌, Bytes, codes, arith,
}
use mathlib.Core.Path.{subst}
use ehttp.SimpleLog.FileAppender.{
  Tm, Platform, Files, Store, c_str, touch, rename, open_log, shift_to,
}
use ehttp.Std.OrdMap
use ehttp.Std.Order.{bytes_ord, same_key, same_key→eq, same_key_refl}

-- A date with a year of four digits, and a day and a month of two.
pub record IsCivil (tm : Tm) : Type 0 where
  pub year : tm.tm_year ≤ 8099
  pub month : tm.tm_mon ≤ 11
  pub day : tm.tm_mday ≤ 31

-- The stream is open on the file of the log, which has the bytes `old`.
pub record IsOpen (old : Bytes) (s : Store) : Type 0 where
  pub opened : s.appender.fs ≡ some (c_str s.appender.log_file_path)
  pub sorted : OrdMap.IsSorted s.files
  pub holds : OrdMap.find (c_str s.appender.log_file_path) s.files ≡ some old

-- No retention time is set.
abbrev pub keeps_all : ℤ → Bool
keeps_all (pos days) = days == 0
keeps_all (negsuc _) = true

pub find_distinct :
    (a b : Bytes) (files : Files) (old : Bytes)
    → OrdMap.has a files ≡ false
    → OrdMap.find b files ≡ some old
    → same_key a b ≡ false
find_distinct a b files old free held = elim (Bool-cases (same_key a b)) [
  | inl e ↦
      let f : OrdMap.has a files ≡ true =
        ap (λ k. OrdMap.has k files) (same_key→eq a b e) ∙ ap OrdMap.is_some held in
      absurd (ground (arith, f, free))
  | inr e ↦ e
]

rename_lem :
    (from to : Bytes) (files : Files) (text : Bytes)
    → OrdMap.find from files ≡ some text
    → rename from to files ≡ OrdMap.insert to text (OrdMap.erase from files)
unfolding rename
rename_lem from to files text e = rw (e, rename)

touch_missing :
    (path : Bytes) (files : Files)
    → OrdMap.find path files ≡ none
    → touch path files ≡ OrdMap.insert path [] files
unfolding touch
touch_missing path files e = rw (e, touch)

-- What a log becomes when its file is renamed: the file is new and empty, the old bytes stand under
-- the new name, and every other file stays.
pub record IsShifted (old new_path : Bytes) (s r : Store) : Type 0 where
  pub is_open : IsOpen [] r
  pub same_appender : r.appender ≡ s.appender
  pub free : OrdMap.find new_path s.files ≡ none
  pub found :
      (p : Bytes)
      → OrdMap.find p r.files ≡ (
          if same_key (c_str s.appender.log_file_path) p
          then some []
          else if same_key new_path p
          then some old
          else OrdMap.find p s.files)

module _ (path new_path : Bytes) (files : Files) (old : Bytes) (sorted : OrdMap.IsSorted files)
    (holds : OrdMap.find path files ≡ some old) (free : OrdMap.has new_path files ≡ false) where
  moved : rename path new_path files ≡ OrdMap.insert new_path old (OrdMap.erase path files)
  moved = rename_lem path new_path files old holds

  find-moved :
      (p : Bytes)
      → OrdMap.find p (rename path new_path files) ≡ (
          if same_key new_path p
          then some old
          else if same_key path p
          then none
          else OrdMap.find p files)
  find-moved p =
      ap (OrdMap.find p) moved
      ∙ OrdMap.find-insert new_path p old (OrdMap.erase path files)
      ∙ ap (λ o. if same_key new_path p then some old else o)
          (OrdMap.find-erase path p files sorted)

  path_moved : OrdMap.find path (rename path new_path files) ≡ none
  path_moved =
      find-moved path ∙ rw (find_distinct new_path path files old free holds, same_key_refl path)

  -- What stands under each path when the file was renamed and its path opened again.
  pub find-shifted :
      (p : Bytes)
      → OrdMap.find p (touch path (rename path new_path files)) ≡ (
          if same_key path p
          then some []
          else if same_key new_path p
          then some old
          else OrdMap.find p files)
  find-shifted p =
      ap (OrdMap.find p) (touch_missing path (rename path new_path files) path_moved)
      ∙ OrdMap.find-insert path p [] (rename path new_path files)
      ∙ ap (λ o. if same_key path p then some [] else o) (find-moved p)
      ∙ elim (Bool-cases (same_key path p)) [ inl e ↦ rw e | inr e ↦ rw e ]

  pub shifted-IsSorted : OrdMap.IsSorted (touch path (rename path new_path files))
  shifted-IsSorted =
      subst OrdMap.IsSorted
        (sym (
          touch_missing path (rename path new_path files) path_moved
          ∙ ap (OrdMap.insert path []) moved))
        (OrdMap.insert-IsSorted path [] _
          (OrdMap.insert-IsSorted new_path old _ (OrdMap.erase-IsSorted path files sorted)))

-- The path of an old file.
abbrev pub path_of : Bytes → Store → Bytes
path_of new_file s = c_str (s.appender.log_dir ++ (codes "/" ++ new_file))

pub shift_to_taken :
    (os : Platform) (new_file : Bytes) (s : Store)
    → OrdMap.has (path_of new_file s) s.files ≡ true
    → shift_to os new_file s ≡ (pos 0, s)
unfolding shift_to
shift_to_taken os new_file s e = rw e

pub shift_to_free :
    (os : Platform) (new_file : Bytes) (s : Store)
    → OrdMap.has (path_of new_file s) s.files ≡ false
    → os.opens (c_str s.appender.log_file_path) ≡ true
    → shift_to os new_file s ≡ (
      pos 1,
      record {
        appender = record s.appender { fs = some (c_str s.appender.log_file_path) };
        files =
            touch
              (c_str s.appender.log_file_path)
              (rename (c_str s.appender.log_file_path) (path_of new_file s) s.files);
      },
    )
unfolding shift_to open_log
shift_to_free os new_file s e f = rw (e, f)

-- The appender is as it was when its stream is open on its file again.
pub reopened :
    (s : Store)
    → s.appender.fs ≡ some (c_str s.appender.log_file_path)
    → record s.appender { fs = some (c_str s.appender.log_file_path) } ≡ s.appender
reopened s e = ap (λ f. record s.appender { fs = f }) (sym e)
