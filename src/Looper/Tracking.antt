-- ===== src/Looper/Tracking.antt =====
-- Which timers the looper can cancel.
use dev_hub.Base.{
  ℕ, ◌+◌, ◌≤◌, ◌<◌, ◌≡◌, refl, Bool, true, false, none, some, List, [], ◌∷◌, ◌==◌, arith, length,
  All, All-append, Bool-cases, Option-cases, inl, inr,
}
use dev_hub.Looper.{
  TimerFlag, TimerElement, Looper, find_timer, erase_timer, insert_sorted, track, schedule_timer,
  cancel_timer, Call, schedule, cancel, call, calls,
}

abbrev pub Below : ℕ → List TimerElement → Type 0
Below n ts = All (λ t. TimerElement.id t < n) ts

-- Every id in use was given out, and the list has at most one timer.
pub record IsValid (l : Looper) : Type 0 where
  pub given : Below l.next_id l.timers
  pub given_pending : Below l.next_id l.pending
  pub single : length l.timers ≤ 1

pub Below-suc : (n : ℕ) (ts : List TimerElement) → Below n ts → Below (n + 1) ts
Below-suc n [] h = tt
Below-suc n (t ∷ ts) h = (omega arith, Below-suc n ts h.1)

erase_timer-Below : (n tid : ℕ) (ts : List TimerElement) → Below n ts → Below n (erase_timer tid ts)
unfolding erase_timer
erase_timer-Below n tid [] h = tt
erase_timer-Below n tid (t ∷ ts) h = elim (Bool-cases (t.id == tid)) [
  | inl e ↦ rw e h.1
  | inr e ↦ rw e (h.0, erase_timer-Below n tid ts h.1)
]

length-erase_timer : (tid : ℕ) (ts : List TimerElement) → length (erase_timer tid ts) ≤ length ts
unfolding erase_timer
length-erase_timer tid [] = omega arith
length-erase_timer tid (t ∷ ts) = ground (arith, length-erase_timer tid ts)

insert_sorted-Below :
    (te : TimerElement) (ts : List TimerElement) → Below te.id ts → insert_sorted te ts ≡ ts
unfolding insert_sorted
insert_sorted-Below te [] h = refl
insert_sorted-Below te (t ∷ ts) h = ground (arith, insert_sorted-Below te ts)

-- A timer with a new id enters the list only if the list is empty.
pub track-Below :
    (te : TimerElement) (ts : List TimerElement) → Below te.id ts → 0 < length ts → track te ts ≡ ts
unfolding track
track-Below te [] h p = absurd (omega arith)
track-Below te (t ∷ ts) h p = insert_sorted-Below te (t ∷ ts) h

track-Below-single :
    (te : TimerElement) (ts : List TimerElement)
    → Below te.id ts
    → length ts ≤ 1
    → Below (te.id + 1) (track te ts) × (length (track te ts) ≤ 1)
track-Below-single te [] h s = unfold track in omega arith
track-Below-single te (t ∷ ts) h s =
    rw (track-Below te (t ∷ ts) h (omega arith)) (Below-suc te.id (t ∷ ts) h, s)

schedule_timer-IsValid :
    (tv sk made added : Bool) (flag : TimerFlag) (sink : ℕ) (l : Looper)
    → IsValid l
    → IsValid (schedule_timer tv sk made added flag sink l).1
unfolding schedule_timer
schedule_timer-IsValid false sk made added flag sink l v = v
schedule_timer-IsValid true false made added flag sink l v = v
schedule_timer-IsValid true true false added flag sink l v = record {
  given = Below-suc l.next_id l.timers v.given;
  given_pending = Below-suc l.next_id l.pending v.given_pending;
  single = v.single;
}
schedule_timer-IsValid true true true false flag sink l v = record {
  given = Below-suc l.next_id l.timers v.given;
  given_pending = Below-suc l.next_id l.pending v.given_pending;
  single = v.single;
}
schedule_timer-IsValid true true true true flag sink l v =
    let te : TimerElement = record { id = l.next_id; sink = sink; flag = flag } in
    let tracked = track-Below-single te l.timers v.given v.single in
    record {
      given = tracked.0;
      given_pending =
          All-append (λ t. TimerElement.id t < l.next_id + 1) l.pending (te ∷ [])
            (Below-suc l.next_id l.pending v.given_pending) (omega arith);
      single = tracked.1;
    }

pub cancel_timer-missing :
    (tid : ℕ) (l : Looper) → find_timer tid l.timers ≡ none → cancel_timer tid l ≡ l
unfolding cancel_timer
cancel_timer-missing tid l e = rw (e, cancel_timer)

pub cancel_timer-found :
    (tid : ℕ) (l : Looper) (t : TimerElement)
    → find_timer tid l.timers ≡ some t
    → cancel_timer tid l
      ≡ record l { timers = erase_timer tid l.timers; pending = erase_timer t.id l.pending }
unfolding cancel_timer
cancel_timer-found tid l t e = rw (e, cancel_timer)

cancel_timer-IsValid : (tid : ℕ) (l : Looper) → IsValid l → IsValid (cancel_timer tid l)
cancel_timer-IsValid tid l v = elim (Option-cases (find_timer tid l.timers)) [
  | inl e ↦ rw (cancel_timer-missing tid l e) v
  | inr (t, e) ↦ rw (cancel_timer-found tid l t e) (record {
    given = erase_timer-Below l.next_id tid l.timers v.given;
    given_pending = erase_timer-Below l.next_id t.id l.pending v.given_pending;
    single = omega (arith, length-erase_timer tid l.timers, v.single);
  })
]

-- From a looper in which the list holds at most one timer, no sequence of ScheduleTimer and
-- CancelTimer calls, failing ones included, makes it hold two, and all ids stay distinct from the
-- next one.
pub calls-IsValid : (cs : List Call) (l : Looper) → IsValid l → IsValid (calls cs l)
unfolding calls call
calls-IsValid [] l v = v
calls-IsValid (schedule tv sk made added flag sink ∷ cs) l v =
    calls-IsValid cs (schedule_timer tv sk made added flag sink l).1
      (schedule_timer-IsValid tv sk made added flag sink l v)
calls-IsValid (cancel tid ∷ cs) l v =
    calls-IsValid cs (cancel_timer tid l) (cancel_timer-IsValid tid l v)

pub find_timer-id :
    (tid : ℕ) (ts : List TimerElement) (t : TimerElement) → find_timer tid ts ≡ some t → t.id ≡ tid
unfolding find_timer
find_timer-id tid [] t h = cc
find_timer-id tid (s ∷ ts) t h = ground (arith, find_timer-id tid ts t)
