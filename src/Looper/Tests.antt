-- ===== src/Looper/Tests.antt =====
-- Runs of the looper, and its theorems at concrete inputs.
use dev_hub.Base.{◌≡◌, refl, some, none, List, [], ◌∷◌, true, arith, inl}
use dev_hub.Looper.{
  fire_periodically, fire_once, TimerElement, Looper, new_looper, find_timer, schedule_timer,
  on_timeout, Call, schedule, cancel, call, calls,
}
use dev_hub.Looper.Tracking.{IsValid, calls-IsValid}
use dev_hub.Looper.Lost.{Listed, IsLost, schedule_timer_uncancellable, on_timeout_lost}

-- Two periodic timers, then both are cancelled.
abbrev two_timers : List Call
two_timers =
    schedule true true true true fire_periodically 7
    ∷ schedule true true true true fire_periodically 8
    ∷ cancel 2
    ∷ cancel 1
    ∷ []

second_stays : calls two_timers new_looper ≡ record {
  timers = [];
  next_id = 3;
  pending = record { id = 2; sink = 8; flag = fire_periodically } ∷ [];
}
unfolding calls call
second_stays = refl

abbrev one_timer : Looper
one_timer = record {
  timers = record { id = 1; sink = 7; flag = fire_periodically } ∷ [];
  next_id = 2;
  pending = record { id = 1; sink = 7; flag = fire_periodically } ∷ [];
}

one_timer-IsValid : IsValid one_timer
one_timer-IsValid = omega arith

new_looper-IsValid : IsValid new_looper
new_looper-IsValid = omega arith

calls-IsValid_example : IsValid (calls two_timers new_looper)
calls-IsValid_example = calls-IsValid two_timers new_looper new_looper-IsValid

schedule_timer_uncancellable_example :
    ((schedule_timer true true true true fire_periodically 8 one_timer).0 ≡ some 2)
    × Listed
        (record { id = 2; sink = 8; flag = fire_periodically })
        (calls
          (cancel 2 ∷ cancel 1 ∷ [])
          (schedule_timer true true true true fire_periodically 8 one_timer).1).pending
schedule_timer_uncancellable_example =
    schedule_timer_uncancellable fire_periodically 8 one_timer (cancel 2 ∷ cancel 1 ∷ [])
      one_timer-IsValid (omega arith)

abbrev missed : TimerElement
missed = record { id = 2; sink = 8; flag = fire_once }

abbrev missing : Looper
missing = record one_timer { next_id = 3; pending = missed ∷ [] }

missing-IsLost : IsLost missed missing
missing-IsLost =
    unfold find_timer in record { given = omega arith; untracked = refl; armed = inl refl }

on_timeout_lost_example : on_timeout (λ sink tid. calls (cancel 1 ∷ [])) missed missing ≡ none
on_timeout_lost_example = on_timeout_lost missed (cancel 1 ∷ []) missing missing-IsLost refl
