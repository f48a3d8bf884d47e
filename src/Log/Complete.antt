-- ===== src/Log/Complete.antt =====
-- Nothing that is logged is lost, and the buffer is never overrun.
use dev_hub.Base.{
  ℕ, ◌+◌, ◌<◌, ◌≤◌, ◌≡◌, refl, sym, ap, ◌∙◌, Bool, some, List, [], ◌∷◌, ◌++◌, length, All, Text,
  arith, suc,
}
use mathlib.Core.Path.{subst}
use mathlib.Core.List.{append_assoc, append-nil}
use dev_hub.Log.{
  Outcome, Dlog, Disk, write_buffer_check_len, inner_dlog, dlogs, ShiftType, name_time, seconds,
}
use dev_hub.Log.Shift.{Files}
use dev_hub.Log.Whole.{HasText}
use dev_hub.Log.Flush.{TakesAll, unbounded, log_with, disk_with}
use dev_hub.Log.Line.{Gives, inner_dlog-Gives}

-- The lines of calls, each closed by a newline.
abbrev pub lines : List (ℕ × Text × Text) → Text
lines [] = []
lines ((now, prefix, msg) ∷ ms) = (prefix ++ (msg ++ (10 ∷ []))) ++ lines ms

-- Two more files for each call, at most.
abbrev pub twice : List (ℕ × Text × Text) → ℕ
twice [] = 0
twice (x ∷ ms) = 2 + twice ms

dlogs_step :
    (calendar : ShiftType → ℕ → ℕ) (fuel : ℕ) (script : ℕ → List Outcome) (now : ℕ)
    (prefix msg : Text) (ms : List (ℕ × Text × Text)) (log log' : Dlog) (d d' : Disk)
    → inner_dlog calendar fuel script now prefix msg log d ≡ some (log', d')
    → dlogs calendar fuel script ((now, prefix, msg) ∷ ms) log d
      ≡ dlogs calendar fuel script ms log' d'
unfolding dlogs
dlogs_step calendar fuel script now prefix msg ms log log' d d' e = rw (e, dlogs) refl

-- Whatever is logged to a local log without a number of files and without expiry, rotated by size at
-- any limit or not at all, when the files can be opened and the system takes all that is written,
-- all calls fall into one time of the log's name, and the prefixes have at most 100 bytes: every call
-- returns and never overruns the buffer, and what is in the log's files, from the oldest to the
-- newest, and after it in the buffer is what was there, followed by all lines in order. In the end
-- fewer bytes than the check length are in the buffer.
pub dlogs-Gives :
    (calendar : ShiftType → ℕ → ℕ) (fuel : ℕ) (type : ShiftType) (max_size : ℕ) (ns nc : Bool)
    (script : ℕ → List Outcome)
    → TakesAll script
    → (ms : List (ℕ × Text × Text)) (b : Text) (last lu p m : ℕ) (files : ℕ → Files) (k : ℕ)
      (f : Text)
    → All (λ x. (name_time calendar type (seconds x.0) ≡ p) × (length x.1 ≤ 100)) ms
    → length b < write_buffer_check_len
    → HasText m f (files p)
    → m + twice ms < fuel
    → let st = unbounded type max_size ns nc in
      Gives p
        (m + twice ms)
        ((f ++ b) ++ lines ms)
        st
        lu
        (dlogs calendar fuel script ms (log_with st b last lu) (disk_with files k))
dlogs-Gives calendar fuel type max_size ns nc script takes [] b last lu p m files k f a l h g =
    unfold dlogs in
    record {
      b = b;
      last = last;
      files = files;
      k = k;
      f = f;
      returns = refl;
      on_disk = record {
        n = h.n;
        few = omega (arith, h.few);
        chain = h.chain;
        content = h.content;
      };
      content = sym (append-nil (f ++ b));
      room = l;
    }
dlogs-Gives calendar fuel type max_size ns nc script takes ((now, prefix, msg) ∷ ms) b last lu p m
      files k f a l h g =
    let st = unbounded type max_size ns nc in
    let gives =
      subst
        (λ q.
          HasText m f (files q)
          → Gives q (suc (suc m)) ((f ++ b) ++ (prefix ++ (msg ++ (10 ∷ [])))) st lu (
              inner_dlog calendar fuel script now prefix msg (log_with st b last lu)
                (disk_with files k)))
        a.0.0
        (λ x.
          inner_dlog-Gives calendar fuel type max_size ns nc script takes now prefix msg b last lu m
            files k f a.0.1 l x (omega (arith, g))) in
    let r = gives h in
    let rest =
      dlogs-Gives calendar fuel type max_size ns nc script takes ms r.b r.last lu p (suc (suc m))
        r.files r.k r.f a.1 r.room r.on_disk (omega (arith, g)) in
    let step =
      dlogs_step calendar fuel script now prefix msg ms (log_with st b last lu)
        (log_with st r.b r.last lu) (disk_with files k) (disk_with r.files r.k) r.returns in
    record {
      b = rest.b;
      last = rest.last;
      files = rest.files;
      k = rest.k;
      f = rest.f;
      returns = step ∙ rest.returns;
      on_disk = record {
        n = rest.on_disk.n;
        few = omega (arith, rest.on_disk.few);
        chain = rest.on_disk.chain;
        content = rest.on_disk.content;
      };
      content =
          rest.content
          ∙ (ap (λ t. t ++ lines ms) r.content
              ∙ append_assoc (f ++ b) (prefix ++ (msg ++ (10 ∷ []))) (lines ms));
      room = rest.room;
    }
