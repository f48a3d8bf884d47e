-- ===== src/Log/Flush.antt =====
-- What a flush of the log does to its files: rotation, expiry and the write.
use dev_hub.Base.{
  ℕ, ◌+◌, ◌<◌, ◌≤◌, ◌≡◌, refl, Bool, true, false, some, List, [], ◌∷◌, ◌++◌, if◌then◌else◌, length,
  Text, arith, ◌==◌, ==_self, suc,
}
use mathlib.Core.Path.{subst}
use mathlib.Core.List.{append-nil}
use dev_hub.Log.{
  Outcome, write_in_full, Dlog, Disk, write_buffer_len, flush_log, ShiftType, by_size, by_min,
  by_hour, by_day, Settings, name_time, seconds, unlink_expire, rotate, append_to,
}
use dev_hub.Log.Shift.{Files, shift_log}
use dev_hub.Log.Whole.{HasText, append_to-HasText, shift_log-HasText}

-- A system that takes whatever a flush writes: for all contents of the buffer.
abbrev pub TakesAll : (ℕ → List Outcome) → Type 0
TakesAll script =
    (k : ℕ) (buf : Text)
    → length buf ≤ write_buffer_len
    → write_in_full (script k) buf ≡ some (some (length buf), buf)

-- A log without a number of files and without expiry.
abbrev pub unbounded : ShiftType → ℕ → Bool → Bool → Settings
unbounded type max_size ns nc = record {
  shift_type = type;
  max_size = max_size;
  log_num = 0;
  keep_time = 0;
  no_shift = ns;
  no_cache = nc;
}

abbrev pub log_with : Settings → Text → ℕ → ℕ → Dlog
log_with st b last lu = record { settings = st; buf = b; last_write = last; last_unlink = lu }

-- Files that can be opened.
abbrev pub disk_with : (ℕ → Files) → ℕ → Disk
disk_with files k = record { files = files; can_open = true; writes = k }

pub more : (m : ℕ) (text : Text) (fs : Files) → HasText m text fs → HasText (suc m) text fs
more m text fs h = record {
  n = h.n;
  few = omega (arith, h.few);
  chain = h.chain;
  content = h.content;
}

-- Other files do not matter.
abbrev pub put : ℕ → Files → (ℕ → Files) → ℕ → Files
put p fs files q = if q == p then fs else files q

pub put_self : (p : ℕ) (fs : Files) (files : ℕ → Files) → put p fs files p ≡ fs
put_self p fs files = rw (==_self p) refl

module _ (calendar : ShiftType → ℕ → ℕ) (fuel : ℕ) (type : ShiftType) (max_size : ℕ)
    (ns nc : Bool) where
  abbrev pub st : Settings
  st = unbounded type max_size ns nc

  -- The files after the rotation.
  abbrev pub turned : ℕ → (ℕ → Files) → ℕ → Files
  turned p files = if ns then files else put p (shift_log fuel max_size 0 (files p)) files

  unexpired :
      (ty : ShiftType) (now last lu : ℕ) (b : Text) (d : Disk)
      → let log = log_with (unbounded ty max_size ns nc) b last lu in
        unlink_expire calendar fuel now log d ≡ (log, d)
  unfolding unlink_expire
  unexpired by_size now last lu b d = refl
  unexpired by_min now last lu b d = refl
  unexpired by_hour now last lu b d = refl
  unexpired by_day now last lu b d = refl

  abbrev pub name : ℕ → ℕ
  name now = name_time calendar type (seconds now)

  rotated :
      (now last lu : ℕ) (b : Text) (files : ℕ → Files) (k : ℕ)
      → rotate calendar fuel now (log_with st b last lu) (disk_with files k)
        ≡ (log_with st b last lu, disk_with (turned (name now) files) k)
  unfolding rotate
  rotated now last lu b files k = go ns refl
    where
      go :
          (x : Bool)
          → ns ≡ x
          → rotate calendar fuel now (log_with st b last lu) (disk_with files k)
            ≡ (log_with st b last lu, disk_with (turned (name now) files) k)
      go true e = rw (e, rotate) refl
      go false e =
          rw (e, rotate)
            (unexpired' e type now last lu b
              (disk_with (put (name now) (shift_log fuel max_size 0 (files (name now))) files) k))
        where
          unexpired' :
              ns ≡ false
              → (ty : ShiftType) (now last lu : ℕ) (b : Text) (d : Disk)
              → let log = log_with (unbounded ty max_size false nc) b last lu in
                unlink_expire calendar fuel now log d ≡ (log, d)
          unexpired' z =
              subst
                (λ x.
                  (ty : ShiftType) (now last lu : ℕ) (b : Text) (d : Disk)
                  → let log = log_with (unbounded ty max_size x nc) b last lu in
                    unlink_expire calendar fuel now log d ≡ (log, d))
                z unexpired

  -- The files after the rotation and with `out` behind.
  abbrev pub extended : ℕ → Text → (ℕ → Files) → ℕ → Files
  extended p out files = put p (append_to out (turned p files p)) (turned p files)

  extended-HasText :
      (p m : ℕ) (f out : Text) (files : ℕ → Files)
      → HasText m f (files p)
      → m < fuel
      → HasText (suc m) (f ++ out) (extended p out files p)
  extended-HasText p m f out files h l = go ns refl
    where
      turned_files :
          (x : Bool)
          → HasText (suc m) (f ++ out) (
              append_to out
                ((if x then files else put p (shift_log fuel max_size 0 (files p)) files) p))
      turned_files true = append_to-HasText m f out (files p) h
      turned_files false =
          rw (put_self p (shift_log fuel max_size 0 (files p)) files)
            (shift_log-HasText fuel max_size m f out (files p) h l)

      go : (x : Bool) → ns ≡ x → HasText (suc m) (f ++ out) (extended p out files p)
      go x e = rw (put_self p (append_to out (turned p files p)) (turned p files)) (turned_files ns)

module _ (calendar : ShiftType → ℕ → ℕ) (fuel : ℕ) (type : ShiftType) (max_size : ℕ) (ns nc : Bool)
    (script : ℕ → List Outcome) (takes : TakesAll script) where
  -- After a flush the buffer is empty and all is in the files.
  pub flush_log_all :
      (now : ℕ) (b : Text) (last lu m : ℕ) (files : ℕ → Files) (k : ℕ) (f : Text)
      → let st = unbounded type max_size ns nc in
        let p = name_time calendar type (seconds now) in
        length b ≤ write_buffer_len
        → HasText m f (files p)
        → m < fuel
        → (last' : ℕ) × (k' : ℕ) × (files' : ℕ → Files) × (flush_log calendar fuel script now
              (log_with st b last lu)
              (disk_with files k)
            ≡ some (log_with st [] last' lu, disk_with files' k'))
          × HasText (suc m) (f ++ b) (files' p)
  unfolding flush_log
  flush_log_all now [] last lu m files k f l h g =
      (last, k, files, refl, rw (append-nil f) (more m f _ h))
  flush_log_all now (c ∷ b) last lu m files k f l h g =
      let p = name_time calendar type (seconds now) in
      let nz : (suc (length b) == 0) ≡ false = ground arith in
      let turn = rotated calendar fuel type max_size ns nc now last lu (c ∷ b) files k in
      (
        now,
        k + 1,
        extended calendar fuel type max_size ns nc p (c ∷ b) files,
        (rw (nz, flush_log) rw (takes k (c ∷ b) l) rw (turn, flush_log) refl),
        extended-HasText calendar fuel type max_size ns nc p m f (c ∷ b) files h g,
      )
