-- ===== src/Looper/Lost.antt =====
-- Timers that the looper's list misses: they stay armed whatever is cancelled later.
use dev_hub.Base.{
  ℕ, ◌<◌, ◌≡◌, refl, ◌≢◌, ◌∙◌, sym, ==_iff, ap, Bool, true, false, none, some, List, [], ◌∷◌, ◌++◌,
  ◌==◌, arith, length, Bool-cases, Option-cases, inl, inr, ◌⊎◌,
}
use dev_hub.Looper.{
  TimerFlag, fire_once, TimerElement, Looper, find_timer, erase_timer, insert_sorted, track,
  schedule_timer, cancel_timer, on_timeout, Call, schedule, cancel, call, calls,
}
use dev_hub.Looper.Tracking.{
  Below, IsValid, track-Below, find_timer-id, cancel_timer-missing, cancel_timer-found,
}

-- The timer is armed in libevent and its id is not in the list.
abbrev pub Listed : TimerElement → List TimerElement → Type 0
Listed te [] = ⊥
Listed te (t ∷ ts) = (t ≡ te) ⊎ Listed te ts

pub record IsLost (te : TimerElement) (l : Looper) : Type 0 where
  pub given : te.id < l.next_id
  pub untracked : find_timer te.id l.timers ≡ none
  pub armed : Listed te l.pending

Listed-append :
    (te : TimerElement) (ts us : List TimerElement) → Listed te ts → Listed te (ts ++ us)
Listed-append te [] us h = absurd h
Listed-append te (t ∷ ts) us (inl e) = inl e
Listed-append te (t ∷ ts) us (inr h) = inr (Listed-append te ts us h)

Listed-last : (te : TimerElement) (ts : List TimerElement) → Listed te (ts ++ (te ∷ []))
Listed-last te [] = inl refl
Listed-last te (t ∷ ts) = inr (Listed-last te ts)

erase_timer-Listed :
    (te : TimerElement) (tid : ℕ) (ts : List TimerElement)
    → te.id ≢ tid
    → Listed te ts
    → Listed te (erase_timer tid ts)
unfolding erase_timer
erase_timer-Listed te tid [] ne h = h
erase_timer-Listed te tid (t ∷ ts) ne (inl e) = elim (Bool-cases (t.id == tid)) [
  | inl eq ↦ absurd (ne (ap TimerElement.id (sym e) ∙ (==_iff t.id tid).0 eq))
  | inr other ↦ rw other (inl e)
]
erase_timer-Listed te tid (t ∷ ts) ne (inr h) = elim (Bool-cases (t.id == tid)) [
  | inl eq ↦ rw eq h
  | inr other ↦ rw other (inr (erase_timer-Listed te tid ts ne h))
]

find_timer-erase_timer :
    (k tid : ℕ) (ts : List TimerElement)
    → find_timer k ts ≡ none
    → find_timer k (erase_timer tid ts) ≡ none
unfolding find_timer erase_timer
find_timer-erase_timer k tid [] h = refl
find_timer-erase_timer k tid (t ∷ ts) h = ground (arith, find_timer-erase_timer k tid ts)

find_timer-track :
    (k : ℕ) (te : TimerElement) (ts : List TimerElement)
    → te.id ≢ k
    → find_timer k ts ≡ none
    → find_timer k (track te ts) ≡ none
unfolding find_timer track
find_timer-track k te [] ne h = ground arith
find_timer-track k te (t ∷ ts) ne h = find_timer-insert_sorted (t ∷ ts) h
  where
    find_timer-insert_sorted :
        (us : List TimerElement)
        → find_timer k us ≡ none
        → find_timer k (insert_sorted te us) ≡ none
    find_timer-insert_sorted [] h = refl
    find_timer-insert_sorted (u ∷ us) h = ground (arith, find_timer-insert_sorted us)

schedule_timer-IsLost :
    (te : TimerElement) (tv sk made added : Bool) (flag : TimerFlag) (sink : ℕ) (l : Looper)
    → IsLost te l
    → IsLost te (schedule_timer tv sk made added flag sink l).1
unfolding schedule_timer
schedule_timer-IsLost te false sk made added flag sink l v = v
schedule_timer-IsLost te true false made added flag sink l v = v
schedule_timer-IsLost te true true false added flag sink l v = record {
  given = omega (arith, v.given);
  untracked = v.untracked;
  armed = v.armed;
}
schedule_timer-IsLost te true true true false flag sink l v = record {
  given = omega (arith, v.given);
  untracked = v.untracked;
  armed = v.armed;
}
schedule_timer-IsLost te true true true true flag sink l v = record {
  given = omega (arith, v.given);
  untracked =
      find_timer-track te.id (record { id = l.next_id; sink = sink; flag = flag }) l.timers
        (omega (arith, v.given)) v.untracked;
  armed =
      Listed-append te l.pending (record { id = l.next_id; sink = sink; flag = flag } ∷ []) v.armed;
}

cancel_timer-IsLost :
    (te : TimerElement) (tid : ℕ) (l : Looper) → IsLost te l → IsLost te (cancel_timer tid l)
cancel_timer-IsLost te tid l v = elim (Option-cases (find_timer tid l.timers)) [
  | inl e ↦ rw (cancel_timer-missing tid l e) v
  | inr (t, e) ↦ rw (cancel_timer-found tid l t e) (record {
    given = v.given;
    untracked = find_timer-erase_timer te.id tid l.timers v.untracked;
    armed = erase_timer-Listed te t.id l.pending (other t e) v.armed;
  })
]
  where
    other : (t : TimerElement) → find_timer tid l.timers ≡ some t → te.id ≢ t.id
    other t e same =
        cc (ap (λ k. find_timer k l.timers) (same ∙ find_timer-id tid l.timers t e), e, v.untracked)

calls-IsLost :
    (cs : List Call) (te : TimerElement) (l : Looper) → IsLost te l → IsLost te (calls cs l)
unfolding calls call
calls-IsLost [] te l v = v
calls-IsLost (schedule tv sk made added flag sink ∷ cs) te l v =
    calls-IsLost cs te (schedule_timer tv sk made added flag sink l).1
      (schedule_timer-IsLost te tv sk made added flag sink l v)
calls-IsLost (cancel tid ∷ cs) te l v =
    calls-IsLost cs te (cancel_timer tid l) (cancel_timer-IsLost te tid l v)

find_timer-Below : (n : ℕ) (ts : List TimerElement) → Below n ts → find_timer n ts ≡ none
unfolding find_timer
find_timer-Below n [] h = refl
find_timer-Below n (t ∷ ts) h = ground (arith, find_timer-Below n ts)

-- A timer that is scheduled while the list has one is armed, and no later sequence of
-- ScheduleTimer and CancelTimer calls, also none with the id that ScheduleTimer returned, takes
-- it out of libevent: it cannot be cancelled.
pub schedule_timer_uncancellable :
    (flag : TimerFlag) (sink : ℕ) (l : Looper) (cs : List Call)
    → IsValid l
    → 0 < length l.timers
    → ((schedule_timer true true true true flag sink l).0 ≡ some l.next_id)
      × Listed
          (record { id = l.next_id; sink = sink; flag = flag })
          (calls cs (schedule_timer true true true true flag sink l).1).pending
schedule_timer_uncancellable flag sink l cs v p =
    (unfold schedule_timer in refl, IsLost.armed (calls-IsLost cs te after lost))
  where
    te : TimerElement
    te = record { id = l.next_id; sink = sink; flag = flag }

    after : Looper
    after = (schedule_timer true true true true flag sink l).1

    lost : IsLost te after
    lost =
        unfold schedule_timer in
        record {
          given = omega arith;
          untracked =
              rw (track-Below te l.timers v.given p) (find_timer-Below l.next_id l.timers v.given);
          armed = Listed-last te l.pending;
        }

-- A TF_FIRE_ONCE timer that the list misses runs into `erase(end())` when it fires, whatever its
-- sink schedules and cancels meanwhile.
pub on_timeout_lost :
    (te : TimerElement) (cs : List Call) (l : Looper)
    → IsLost te l
    → te.flag ≡ fire_once
    → on_timeout (λ sink tid. calls cs) te l ≡ none
unfolding on_timeout
on_timeout_lost te cs l v once =
    rw (once, on_timeout) (rw (IsLost.untracked (calls-IsLost cs te l v), on_timeout))

erase_timer-last :
    (te : TimerElement) (ts : List TimerElement)
    → Below te.id ts
    → erase_timer te.id (ts ++ (te ∷ [])) ≡ ts
unfolding erase_timer
erase_timer-last te [] h = ground arith
erase_timer-last te (t ∷ ts) h = ground (arith, erase_timer-last te ts)

-- A timer that is scheduled while the list is empty is cancelled by its id: the list is empty
-- again, and libevent holds what it held before.
pub cancel_timer-schedule_timer :
    (flag : TimerFlag) (sink : ℕ) (l : Looper)
    → IsValid l
    → l.timers ≡ []
    → let (tid, l') = schedule_timer true true true true flag sink l in
      let l'' = cancel_timer l.next_id l' in
      (tid ≡ some l.next_id) × (l''.timers ≡ []) × (l''.pending ≡ l.pending)
cancel_timer-schedule_timer flag sink l v e =
    unfold schedule_timer cancel_timer find_timer erase_timer track in
    (
      refl,
      rw (e, track) (ground arith),
      ground (
        arith,
        e,
        erase_timer-last (record { id = l.next_id; sink = sink; flag = flag }) l.pending
            v.given_pending,
      ),
    )
