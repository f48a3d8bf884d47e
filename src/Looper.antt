-- ===== src/Looper.antt =====
-- lux::EventLooperImp of Communication/eventlooperimp.cpp: the timers that the program schedules
-- and cancels. `timers` is the list `m_timers`, `pending` what libevent holds (events that were
-- added and not deleted). That `event_new` and `event_add` can fail is in two arguments.
pub mod Lost
pub mod Tracking
mod Tests
use dev_hub.Base.{
  ℕ, ◌+◌, Bool, true, false, Option, none, some, List, [], ◌∷◌, ◌++◌, if◌then◌else◌, leb, ◌==◌, not,
  ◌||◌,
}

pub data TimerFlag : Type 0 where
  fire_once fire_periodically : TimerFlag

-- TimerElement; the sink is a name for the object that is called.
pub record TimerElement : Type 0 where
  pub id : ℕ
  pub sink : ℕ
  pub flag : TimerFlag

pub record Looper : Type 0 where
  pub timers : List TimerElement
  pub next_id : ℕ
  pub pending : List TimerElement

-- The state of the constructor: `m_nextID(1)`.
abbrev pub new_looper : Looper
new_looper = record { timers = []; next_id = 1; pending = [] }

-- `find_if` with TimerCompEq.
unfoldable pub find_timer : ℕ → List TimerElement → Option TimerElement
find_timer tid [] = none
find_timer tid (t ∷ ts) = if t.id == tid then some t else find_timer tid ts

-- `erase` at the position that `find_if` gives.
unfoldable pub erase_timer : ℕ → List TimerElement → List TimerElement
erase_timer tid [] = []
erase_timer tid (t ∷ ts) = if t.id == tid then ts else t ∷ erase_timer tid ts

-- The `for` loop of ScheduleTimer: insert before the first element whose id is not smaller.
unfoldable pub insert_sorted : TimerElement → List TimerElement → List TimerElement
insert_sorted te [] = []
insert_sorted te (t ∷ ts) = if leb te.id t.id then te ∷ t ∷ ts else t ∷ insert_sorted te ts

unfoldable pub track : TimerElement → List TimerElement → List TimerElement
unfolding insert_sorted
track te [] = te ∷ []
track te (t ∷ ts) = insert_sorted te (t ∷ ts)

-- ScheduleTimer. `has_tv` and `has_sink` say that the pointers are not null; `made` and `added`
-- that `event_new` and `event_add` succeed. The result `none` is the -1.
unfoldable pub schedule_timer :
    Bool → Bool → Bool → Bool → TimerFlag → ℕ → Looper → Option ℕ × Looper
unfolding track
schedule_timer has_tv has_sink made added flag sink l =
    let te : TimerElement = record { id = l.next_id; sink = sink; flag = flag } in
    let taken = record l { next_id = l.next_id + 1 } in
    if not has_tv || not has_sink
    then (none, l)
    else if not made
    then (none, taken)
    else if not added
    then (none, taken)
    else (some te.id, record taken { timers = track te l.timers; pending = l.pending ++ (te ∷ []) })

-- CancelTimer: event_del, event_free and erase, if the list has the timer.
unfoldable pub cancel_timer : ℕ → Looper → Looper
unfolding find_timer erase_timer
cancel_timer tid l = elim (find_timer tid l.timers) [
  | none ↦ l
  | some t ↦ record l { timers = erase_timer tid l.timers; pending = erase_timer t.id l.pending }
]

-- OnTimeout, after libevent fired `te`; `on_timer` is what the sink's OnTimer does with the
-- timers. `none` is the `erase(end())` of a timer that is not in the list.
unfoldable pub on_timeout : (ℕ → ℕ → Looper → Looper) → TimerElement → Looper → Option Looper
unfolding find_timer erase_timer
on_timeout on_timer te l =
    let called = on_timer te.sink te.id l in
    elim te.flag [
      | fire_periodically ↦ some called
      | fire_once ↦ elim (find_timer te.id called.timers) [
        | none ↦ none
        | some t ↦ some (record called { timers = erase_timer te.id called.timers })
      ]
    ]

-- What the program asks of the looper.
pub data Call : Type 0 where
  schedule : Bool → Bool → Bool → Bool → TimerFlag → ℕ → Call
  cancel : ℕ → Call

unfoldable pub call : Call → Looper → Looper
unfolding schedule_timer cancel_timer
call (schedule tv sk made added flag sink) l = (schedule_timer tv sk made added flag sink l).1
call (cancel tid) l = cancel_timer tid l

unfoldable pub calls : List Call → Looper → Looper
calls [] l = l
calls (c ∷ cs) l = calls cs (call c l)
