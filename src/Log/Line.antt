-- ===== src/Log/Line.antt =====
-- What one call of dlog does to a log without a number of files and without expiry.
use dev_hub.Base.{
  ℕ, ◌+◌, ◌-◌, ◌<◌, ◌≤◌, ◌≡◌, refl, inl, inr, Bool, true, false, ◌||◌, Option, none, some, List, [],
  ◌∷◌, ◌++◌, if◌then◌else◌, ltb, leb, length, length-append, Text, arith, Bool-cases, suc,
}
use mathlib.Core.List.{append_assoc, append-nil}
use dev_hub.Log.{
  Outcome, Dlog, Disk, write_interval, write_buffer_check_len, write_buffer_len, timeval_diff,
  flush_log, inner_dlog_check, inner_dlog, ShiftType, Settings, name_time, seconds, append_to,
  with_files,
}
use dev_hub.Log.Shift.{Files}
use dev_hub.Log.Whole.{HasText, append_to-HasText}
use dev_hub.Log.Flush.{TakesAll, unbounded, log_with, disk_with, put, put_self, more, flush_log_all}

-- A call that returns, with `text` in at most `m` files under the name time `p` and in the buffer,
-- which is filled below the check length.
pub record Gives (p m : ℕ) (text : Text) (st : Settings) (lu : ℕ) (o : Option (Dlog × Disk))
    : Type 0 where
  pub b : Text
  pub last : ℕ
  pub files : ℕ → Files
  pub k : ℕ
  pub f : Text
  pub returns : o ≡ some (log_with st b last lu, disk_with files k)
  pub on_disk : HasText m f (files p)
  pub content : f ++ b ≡ text
  pub room : length b < write_buffer_check_len

module _ (calendar : ShiftType → ℕ → ℕ) (fuel : ℕ) (type : ShiftType) (max_size : ℕ) (ns nc : Bool)
    (script : ℕ → List Outcome) (takes : TakesAll script) where
  abbrev st' : Settings
  st' = unbounded type max_size ns nc

  abbrev log_of : Text → ℕ → ℕ → Dlog
  log_of b last lu = log_with (unbounded type max_size ns nc) b last lu

  abbrev at : ℕ → ℕ
  at now = name_time calendar type (seconds now)

  flush_log-Gives :
      (now : ℕ) (b : Text) (last lu m : ℕ) (files : ℕ → Files) (k : ℕ) (f : Text)
      → length b ≤ write_buffer_len
      → HasText m f (files (at now))
      → m < fuel
      → Gives
          (at now)
          (suc (suc m))
          (f ++ b)
          st'
          lu
          (flush_log calendar fuel script now (log_of b last lu) (disk_with files k))
  flush_log-Gives now b last lu m files k f l h g =
      let (last', k', files', e, h') =
        flush_log_all calendar fuel type max_size ns nc script takes now b last lu m files k f l h
          g in
      record {
        b = [];
        last = last';
        files = files';
        k = k';
        f = f ++ b;
        returns = e;
        on_disk = more (suc m) (f ++ b) (files' (at now)) h';
        content = append-nil (f ++ b);
        room = omega arith;
      }

  inner_dlog_check-Gives :
      (now : ℕ) (b : Text) (last lu m : ℕ) (files : ℕ → Files) (k : ℕ) (f : Text)
      → length b ≤ write_buffer_len
      → HasText m f (files (at now))
      → m < fuel
      → Gives
          (at now)
          (suc (suc m))
          (f ++ b)
          st'
          lu
          (inner_dlog_check calendar fuel script now (log_of b last lu) (disk_with files k))
  unfolding inner_dlog_check
  inner_dlog_check-Gives now b last lu m files k f l h g =
      elim (Bool-cases
        (leb write_interval (timeval_diff last now) || leb write_buffer_check_len (length b))) [
          | inl z ↦ rw z (flush_log-Gives now b last lu m files k f l h g)
          | inr z ↦ rw z (record {
            b = b;
            last = last;
            files = files;
            k = k;
            f = f;
            returns = refl;
            on_disk = more (suc m) f (files (at now)) (more m f (files (at now)) h);
            content = refl;
            room = ground arith;
          })
        ]

  -- The case of a line that does not fit behind the buffer: it goes to the file directly.
  direct :
      (now : ℕ) (line b : Text) (last lu m : ℕ) (files : ℕ → Files) (k : ℕ) (f : Text)
      → length b ≤ write_buffer_len
      → HasText m f (files (at now))
      → m < fuel
      → Gives
          (at now)
          (suc (suc m))
          ((f ++ b) ++ line)
          st'
          lu
          (elim (flush_log calendar fuel script now (log_of b last lu) (disk_with files k)) [
            | none ↦ none
            | some (log', d') ↦ some (
              log',
              if d'.can_open
                  then with_files (at now) (append_to line (d'.files (at now))) d'
                  else d',
            )
          ])
  direct now line b last lu m files k f l h g =
      let (last', k', files', e, h') =
        flush_log_all calendar fuel type max_size ns nc script takes now b last lu m files k f l h
          g in
      record {
        b = [];
        last = last';
        files = put (at now) (append_to line (files' (at now))) files';
        k = k';
        f = (f ++ b) ++ line;
        returns = rw e refl;
        on_disk =
            rw (put_self (at now) (append_to line (files' (at now))) files')
              (append_to-HasText (suc m) (f ++ b) line (files' (at now)) h');
        content = append-nil ((f ++ b) ++ line);
        room = omega arith;
      }

  buffered :
      (now : ℕ) (line b : Text) (last lu m : ℕ) (files : ℕ → Files) (k : ℕ) (f : Text)
      → length (b ++ line) ≤ write_buffer_len
      → HasText m f (files (at now))
      → m < fuel
      → Gives (at now) (suc (suc m)) ((f ++ b) ++ line) st' lu (
          if nc
          then flush_log calendar fuel script now (log_of (b ++ line) last lu) (disk_with files k)
          else inner_dlog_check calendar fuel script now
              (log_of (b ++ line) last lu)
              (disk_with files k))
  buffered now line b last lu m files k f l h g = rw (append_assoc f b line) (choose nc)
    where
      choose :
          (x : Bool)
          → Gives (at now) (suc (suc m)) (f ++ (b ++ line)) st' lu (
              if x
              then flush_log calendar fuel script now
                  (log_of (b ++ line) last lu)
                  (disk_with files k)
              else inner_dlog_check calendar fuel script now
                  (log_of (b ++ line) last lu)
                  (disk_with files k))
      choose true = flush_log-Gives now (b ++ line) last lu m files k f l h g
      choose false = inner_dlog_check-Gives now (b ++ line) last lu m files k f l h g

  pub inner_dlog-Gives :
      (now : ℕ) (prefix msg b : Text) (last lu m : ℕ) (files : ℕ → Files) (k : ℕ) (f : Text)
      → length prefix ≤ 100
      → length b < write_buffer_check_len
      → HasText m f (files (at now))
      → m < fuel
      → Gives
          (at now)
          (suc (suc m))
          ((f ++ b) ++ (prefix ++ (msg ++ (10 ∷ []))))
          st'
          lu
          (inner_dlog calendar fuel script now prefix msg (log_of b last lu) (disk_with files k))
  unfolding inner_dlog
  inner_dlog-Gives now prefix msg b last lu m files k f h l hd g =
      let cache_len = write_buffer_len - length b in
      let line = prefix ++ (msg ++ (10 ∷ [])) in
      let fits : ltb cache_len (length prefix) ≡ false = ground arith in
      let size : length (b ++ (prefix ++ (msg ++ (10 ∷ []))))
          ≡ length b + length prefix + length msg + 1 =
        omega (
          arith,
          length-append b (prefix ++ (msg ++ (10 ∷ []))),
          length-append prefix (msg ++ (10 ∷ [])),
          length-append msg (10 ∷ []),
        ) in
      rw fits (elim (Bool-cases (leb (cache_len - length prefix) (length msg))) [
        | inl z ↦ rw z (direct now line b last lu m files k f (omega arith) hd g)
        | inr z ↦ rw z (buffered now line b last lu m files k f (ground (arith, size)) hd g)
      ])
