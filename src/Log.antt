-- ===== src/Log.antt =====
-- The log of tools/ut_log.c for local files: the buffer of a `dlog_t`, its rotation and expiry, and
-- what reaches the files; the rotation by number is in Log/Shift. Forked rotation and remote logs are
-- left out. `dlog_t`'s times are in microseconds, those of names in seconds. `none` as a result is a
-- call that does not return or a write behind the buffer's end.
pub mod Write
pub mod Shift
pub mod Whole
pub mod Flush
pub mod Line
pub mod Complete
mod Tests
use dev_hub.Log.Shift.{Files, unlink, count, shift_log}
use dev_hub.Base.{
  ℕ, zero, suc, ◌+◌, ◌-◌, ◌*◌, ◌%◌, ◌^◌, Bool, true, false, ◌||◌, Option, none, some, List, [], ◌∷◌,
  ◌++◌, min, if◌then◌else◌, ltb, leb, ◌==◌, take, drop, length, Text, ◌/◌,
}

-- What the system does with a `write`: EAGAIN or EINTR, another error, or it takes so many bytes
-- at most.
pub data Outcome : Type 0 where
  again failed : Outcome
  accepts : ℕ → Outcome

-- `p += written; total += written`: the bytes `front` were written before the rest.
unfoldable pub add_written : Text → Option (Option ℕ × Text) → Option (Option ℕ × Text)
add_written front none = none
add_written front (some (none, out)) = some (none, front ++ out)
add_written front (some (some total, out)) = some (some (length front + total), front ++ out)

-- write_in_full with xwrite's loop, for the outcomes of the `write` calls in order: the total or
-- the -1 (`none`), and the bytes that were written.
unfoldable pub write_in_full : List Outcome → Text → Option (Option ℕ × Text)
unfolding add_written
write_in_full os [] = some (some 0, [])
write_in_full [] (c ∷ buf) = none
write_in_full (again ∷ os) (c ∷ buf) = write_in_full os (c ∷ buf)
write_in_full (failed ∷ os) (c ∷ buf) = some (none, [])
write_in_full (accepts zero ∷ os) (c ∷ buf) = some (none, [])
write_in_full (accepts (suc n) ∷ os) (c ∷ buf) =
    add_written (c ∷ take n buf) (write_in_full os (drop n buf))

abbrev pub write_interval : ℕ
write_interval = 10 * 1000

abbrev pub write_buffer_check_len : ℕ
write_buffer_check_len = 32 * 1024

abbrev pub write_buffer_len : ℕ
write_buffer_len = 64 * 1024

pub data ShiftType : Type 0 where
  by_size by_min by_hour by_day : ShiftType

-- What dlog_init sets.
pub record Settings : Type 0 where
  pub shift_type : ShiftType
  pub max_size : ℕ
  pub log_num : ℕ
  pub keep_time : ℕ
  pub no_shift : Bool
  pub no_cache : Bool

-- `buf` is the buffer's first `write_len` bytes.
pub record Dlog : Type 0 where
  pub settings : Settings
  pub buf : Text
  pub last_write : ℕ
  pub last_unlink : ℕ

-- The files by the time in their names and their index, whether the log's file can be opened, and
-- how many times it was written.
pub record Disk : Type 0 where
  pub files : ℕ → Files
  pub can_open : Bool
  pub writes : ℕ

-- timeval_diff, in 64 bits.
abbrev pub timeval_diff : ℕ → ℕ → ℕ
timeval_diff old new = (new + 2 ^ 64 - old) % 2 ^ 64

-- The files of one time in the names.
abbrev pub with_files : ℕ → Files → Disk → Disk
with_files p fs d = record d { files = λ q. if q == p then fs else d.files q }

abbrev pub text_of : Option Text → Text
text_of none = []
text_of (some t) = t

-- Bytes behind the file of index 0, which is made if it is missing.
abbrev pub append_to : Text → Files → Files
append_to out fs k = if k == 0 then some (text_of (fs 0) ++ out) else fs k

abbrev pub seconds : ℕ → ℕ
seconds now = now / 1000000

-- The lengths that unlink_expire uses.
abbrev pub span : ShiftType → ℕ
span by_size = 0
span by_min = 60
span by_hour = 3600
span by_day = 86400

unfoldable pub unlink_loop : ℕ → ℕ → Files → Files
unlink_loop zero i fs = fs
unlink_loop (suc n) i fs = unlink_loop n (suc i) (unlink i fs)

-- `calendar` is the number that log_suffix prints of a local time for a kind of rotation.
module _ (calendar : ShiftType → ℕ → ℕ) where
  -- The time in the log's name, which a log by size does not have.
  abbrev pub name_time : ShiftType → ℕ → ℕ
  name_time by_size sec = 0
  name_time by_min sec = calendar by_min sec
  name_time by_hour sec = calendar by_hour sec
  name_time by_day sec = calendar by_day sec

  -- inner_unlink_expire; `fuel` is above the number of files, and times are above the kept ones.
  unfoldable pub inner_unlink_expire : ℕ → Settings → ℕ → Disk → Disk
  unfolding unlink_loop
  inner_unlink_expire fuel st expire_time d =
      let p = name_time st.shift_type expire_time in
      let num = if st.log_num == 0 then count fuel 0 (d.files p) else st.log_num in
      with_files p (unlink_loop num 0 (d.files p)) d

  unfoldable pub unlink_expire : ℕ → ℕ → Dlog → Disk → Dlog × Disk
  unfolding inner_unlink_expire
  unlink_expire fuel now log d =
      let st = log.settings in
      let limit = span st.shift_type in
      if (limit == 0) || (st.keep_time == 0)
      then (log, d)
      else if ltb limit (seconds now - log.last_unlink)
      then (
        record log { last_unlink = seconds now },
        inner_unlink_expire fuel st (seconds now - limit * st.keep_time) d,
      )
      else (log, d)

  -- What flush_log does before it opens the file.
  unfoldable pub rotate : ℕ → ℕ → Dlog → Disk → Dlog × Disk
  unfolding unlink_expire
  rotate fuel now log d =
      let st = log.settings in
      let p = name_time st.shift_type (seconds now) in
      if st.no_shift
      then (log, d)
      else unlink_expire fuel now log
          (with_files p (shift_log fuel st.max_size st.log_num (d.files p)) d)

-- `script k` are the outcomes of the `write` calls when the file is written for the k-th time.
module _ (calendar : ShiftType → ℕ → ℕ) (fuel : ℕ) (script : ℕ → List Outcome) where
  unfoldable pub flush_log : ℕ → Dlog → Disk → Option (Dlog × Disk)
  unfolding write_in_full rotate
  flush_log now log d =
      let p = name_time calendar log.settings.shift_type (seconds now) in
      let (log1, d1) = rotate calendar fuel now log d in
      let log' = record log1 { buf = []; last_write = now } in
      if length log.buf == 0
      then some (log, d)
      else if d.can_open
      then elim (write_in_full (script d.writes) log.buf) [
        | none ↦ none
        | some (total, out) ↦
            some (
              log',
              record (with_files p (append_to out (d1.files p)) d1) { writes = d.writes + 1 },
            )
      ]
      else some (log', d1)

  unfoldable pub inner_dlog_check : ℕ → Dlog → Disk → Option (Dlog × Disk)
  unfolding flush_log
  inner_dlog_check now log d =
      if leb write_interval (timeval_diff log.last_write now)
        || leb write_buffer_check_len (length log.buf)
      then flush_log now log d
      else some (log, d)

  -- inner_dlog: `prefix` are the time stamp and the process number, `msg` the formatted message.
  -- A prefix that does not fit would make `cache_len` wrap around.
  unfoldable pub inner_dlog : ℕ → Text → Text → Dlog → Disk → Option (Dlog × Disk)
  unfolding inner_dlog_check
  inner_dlog now prefix msg log d =
      let cache_len = write_buffer_len - length log.buf in
      let line = prefix ++ (msg ++ (10 ∷ [])) in
      if ltb cache_len (length prefix)
      then none
      else if leb (cache_len - length prefix) (length msg)
      then elim (flush_log now log d) [
        | none ↦ none
        | some (log', d') ↦
            let p = name_time calendar log.settings.shift_type (seconds now) in
            some (log', if d'.can_open then with_files p (append_to line (d'.files p)) d' else d')
      ]
      else (let log' = record log { buf = log.buf ++ line } in
          if log.settings.no_cache then flush_log now log' d else inner_dlog_check now log' d)

  -- Calls of dlog at their times, each with its prefix and message.
  unfoldable pub dlogs : List (ℕ × Text × Text) → Dlog → Disk → Option (Dlog × Disk)
  unfolding inner_dlog
  dlogs [] log d = some (log, d)
  dlogs ((now, prefix, msg) ∷ ms) log d = elim (inner_dlog now prefix msg log d) [
    | none ↦ none
    | some (log', d') ↦ dlogs ms log' d'
  ]
