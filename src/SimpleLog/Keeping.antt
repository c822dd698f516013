-- ===== src/SimpleLog/Keeping.antt =====
-- A line that `_log` of src/simple_log.cpp writes goes to the end of the log, and no byte that was
-- logged before is lost.
use ehttp.Base.{
  ◌>>=◌, ℕ, ◌≤◌, ◌≡◌, refl, sym, ap, ◌∙◌, ◌⊎◌, inl, inr, Bool, true, false, Bool-cases, [], ◌∷◌,
  ◌++◌, none, some, ℤ, if◌then◌else◌, Bytes, codes, length,
}
use mathlib.Core.Path.{subst}
use ehttp.SimpleLog.FileAppender.{
  Tm, Platform, Moment, Files, Store, c_str, one_day_seconds, append_to, single_log, write_log,
  minus, set_last_sec, shift_file_if_need,
}
use ehttp.SimpleLog.Log.{Log, get_show_time, log_text}
use ehttp.SimpleLog.Preparing.{IsPrepared, prepared}
use ehttp.SimpleLog.Rotation.{IsCivil, IsOpen, keeps_all}
use ehttp.Std.OrdMap
use ehttp.Std.Order.{bytes_ord, same_key, same_key_refl, same_key→eq}

append_to_lem :
    (path bytes old : Bytes) (files : Files)
    → OrdMap.find path files ≡ some old
    → append_to path bytes files ≡ OrdMap.insert path (old ++ bytes) files
unfolding append_to
append_to_lem path bytes old files e = rw (e, append_to)

write_log_lem :
    (text old : Bytes) (s : Store)
    → IsOpen old s
    → write_log text s ≡ record s {
      files = OrdMap.insert (c_str s.appender.log_file_path) (old ++ single_log text) s.files;
    }
unfolding write_log
write_log_lem text old s v =
    ap
      (λ o. elim o [
        | none ↦ s
        | some path ↦ record s { files = append_to path (single_log text) s.files }
      ])
      v.opened
    ∙ ap (λ m. record s { files = m })
        (append_to_lem (c_str s.appender.log_file_path) (single_log text) old s.files v.holds)

pub write_log-IsOpen :
    (text old : Bytes) (s : Store)
    → IsOpen old s
    → IsOpen (old ++ single_log text) (write_log text s)
write_log-IsOpen text old s v =
    let path = c_str s.appender.log_file_path in
    subst (IsOpen (old ++ single_log text)) (sym (write_log_lem text old s v)) (record {
      opened = v.opened;
      sorted = OrdMap.insert-IsSorted path (old ++ single_log text) s.files v.sorted;
      holds =
          OrdMap.find-insert path path (old ++ single_log text) s.files ∙ rw (same_key_refl path);
    })

find-write_log :
    (text old p : Bytes) (s : Store)
    → IsOpen old s
    → OrdMap.find p (write_log text s).files ≡ (
        if same_key (c_str s.appender.log_file_path) p
        then some (old ++ single_log text)
        else OrdMap.find p s.files)
find-write_log text old p s v =
    ap (λ r. OrdMap.find p r.files) (write_log_lem text old s v)
    ∙ OrdMap.find-insert (c_str s.appender.log_file_path) p (old ++ single_log text) s.files

-- The file of the log has its old bytes and then the line, and every other path what it had; or
-- the old bytes stand under a name that was free, the file of the log has the line alone, and every
-- other path what it had.
abbrev pub Keeps : Bytes → Bytes → Store → Store → Type 0
Keeps old line s r =
    (((p : Bytes)
        → OrdMap.find p r.files ≡ (
            if same_key (c_str s.appender.log_file_path) p
            then some (old ++ line)
            else OrdMap.find p s.files))
      × IsOpen (old ++ line) r)
    ⊎ ((new_path : Bytes) × ((OrdMap.find new_path s.files ≡ none)
          × ((OrdMap.find new_path r.files ≡ some old)
              × (((p : Bytes)
                    → OrdMap.find p r.files ≡ (
                        if same_key (c_str s.appender.log_file_path) p
                        then some line
                        else if same_key new_path p
                        then some old
                        else OrdMap.find p s.files))
                  × IsOpen line r))))

pub IsOpen-set_last_sec :
    (old : Bytes) (sec : ℕ) (s : Store) → IsOpen old s → IsOpen old (set_last_sec sec s)
IsOpen-set_last_sec old sec s v = record { opened = v.opened; sorted = v.sorted; holds = v.holds }

-- A path that has no file is not the path of the log.
free_other :
    (path new_path old : Bytes) (files : Files)
    → OrdMap.find path files ≡ some old
    → OrdMap.find new_path files ≡ none
    → same_key path new_path ≡ false
free_other path new_path old files h free = elim (Bool-cases (same_key path new_path)) [
  | inl e ↦ absurd (
      none_ne_some
        (sym free ∙ ap (λ p. OrdMap.find p files) (sym (same_key→eq path new_path e)) ∙ h))
  | inr e ↦ e
]
  where
    none_ne_some : none ≡ some old → ⊥
    none_ne_some h = cc

write_log-prepared :
    (text old : Bytes) (sec : ℕ) (s r : Store)
    → IsOpen old s
    → IsPrepared sec old s r
    → Keeps old (single_log text) s (write_log text r)
write_log-prepared text old sec s r v (inl e) =
    let w = IsOpen-set_last_sec old sec s v in
    subst (λ r. Keeps old (single_log text) s (write_log text r)) (sym e)
      (inl ((λ p. find-write_log text old p _ w), write_log-IsOpen text old _ w))
write_log-prepared text old sec s r v (inr (new_path, (s1, (h, e)))) =
    let w = IsOpen-set_last_sec [] sec s1 h.is_open in
    let same : c_str s1.appender.log_file_path ≡ c_str s.appender.log_file_path =
      ap (λ a. c_str a.log_file_path) h.same_appender in
    let found : (p : Bytes)
        → OrdMap.find p (write_log text (set_last_sec sec s1)).files ≡ (
            if same_key (c_str s.appender.log_file_path) p
            then some (single_log text)
            else if same_key new_path p
            then some old
            else OrdMap.find p s.files) =
      λ p.
        find-write_log text [] p _ w
        ∙ ap (λ path. if same_key path p then some (single_log text) else OrdMap.find p s1.files)
            same
        ∙ ap
            (λ o. if same_key (c_str s.appender.log_file_path) p then some (single_log text) else o)
            (h.found p)
        ∙ if_again (same_key (c_str s.appender.log_file_path) p) _ _ _ in
    let other = free_other (c_str s.appender.log_file_path) new_path old s.files v.holds h.free in
    subst (λ r. Keeps old (single_log text) s (write_log text r)) (sym e)
      (inr (
        new_path,
        (
          h.free,
          (
            found new_path ∙ rw (other, same_key_refl new_path),
            (found, write_log-IsOpen text [] _ w),
          ),
        ),
      ))
  where
    if_again :
        {A : Type 0} (b : Bool) (x y z : A)
        → (if b then x else (if b then y else z)) ≡ (if b then x else z)
    if_again true x y z = refl
    if_again false x y z = refl

pub log_text_file :
    (os : Platform) (now : Moment) (text : Bytes) (l : Log) (r : ℤ × Store)
    → l.use_file_appender ≡ true
    → shift_file_if_need os now l.store ≡ some r
    → log_text os now text l
      ≡ some (record l { store = write_log (get_show_time os now ++ (codes " " ++ text)) r.1 })
unfolding log_text
log_text_file os now text l r used e =
    ap
      (λ b.
        if b
        then (shift_file_if_need os now l.store >>= λ r.
            some (record l { store = write_log (get_show_time os now ++ (codes " " ++ text)) r.1 }))
        else some (record l { stdout = l.stdout ++ (text ++ 10 ∷ []) }))
      used
    ∙ ap
        (λ o. o >>= λ r.
          some (record l { store = write_log (get_show_time os now ++ (codes " " ++ text)) r.1 }))
        e

-- A line on a log that is open and used, whose file can be opened and has a name of at most 88 bytes,
-- with no retention time, and with a year of four digits yesterday: no code faults, the stream is
-- open again on the file of the log, and either the file has its old bytes and then the line and every
-- other path is as it was, or there is a name that was free under which the old bytes stand now, the
-- file has the line alone, and every other path is as it was.
pub log_text-Keeps :
    (os : Platform) (now : Moment) (text old : Bytes) (tm : Tm) (l : Log)
    → l.use_file_appender ≡ true
    → IsOpen old l.store
    → os.opens (c_str l.store.appender.log_file_path) ≡ true
    → keeps_all l.store.appender.retain_day ≡ true
    → length l.store.appender.log_file ≤ 88
    → os.localtime (minus now.tv_sec one_day_seconds) ≡ some tm
    → IsCivil tm
    → let line = single_log (get_show_time os now ++ (codes " " ++ text)) in
      (r : Log) × ((log_text os now text l ≡ some r) × Keeps old line l.store r.store)
log_text-Keeps os now text old tm l used v opens kept short yesterday civil =
    let (r, (e, h)) = prepared os now old tm l.store v opens kept short yesterday civil in
    let fin_text = get_show_time os now ++ (codes " " ++ text) in
    (
      record l { store = write_log fin_text r.1 },
      (
        log_text_file os now text l r used e,
        write_log-prepared fin_text old now.tv_sec l.store r.1 v h,
      ),
    )
