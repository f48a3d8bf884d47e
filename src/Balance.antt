-- ===== src/Balance.antt =====
-- ElecBalance of equipment/ElecBalance.cpp with Equipment::OnTimer of equipment/equipment.cpp: the
-- frames of the balance become values or error texts for m_updater. `styled` is
-- `Json::Value::toStyledString`. The time is in milliseconds. The length of the data is not looked
-- at by the code; where the data is shorter than a frame, the model reads 0. The numbers that
-- OnData returns are used by no caller and left out.
pub mod Weighed
mod Tests
use dev_hub.Base.{
  ℕ, zero, suc, ◌+◌, ◌-◌, ◌%◌, Bool, true, false, ◌&&◌, Option, none, some, List, [], ◌∷◌, ◌++◌,
  if◌then◌else◌, ltb, ◌==◌, get_or, Text, codes, ℤ, pos, negsuc, Json, str, num, obj, field, end,
}
use dev_hub.Looper.{Looper, fire_periodically, schedule_timer, cancel_timer}
use dev_hub.Scanner.{c_string}

-- `timer` is the global m_balanceClTimer, with `none` for -1; `made` and `added` say whether
-- libevent's `event_new` and `event_add` succeed; `sink` names the balance as the looper's client.
pub record ElecBalance : Type 0 where
  pub looper : Looper
  pub made : Bool
  pub added : Bool
  pub sink : ℕ
  pub timer : Option ℕ
  pub start_time : ℕ
  pub updates : List Text
  pub written : List Text

-- A difference of times in an `int`.
abbrev pub int_of : ℕ → ℤ
int_of w = if ltb w 2147483648 then pos w else negsuc (4294967295 - w)

abbrev pub time_use : ℕ → ℕ → ℤ
time_use now start = int_of ((now + (4294967296 - start % 4294967296)) % 4294967296)

-- `!c` as a number.
abbrev pub negation : ℕ → ℕ
negation c = if c == 0 then 1 else 0

-- The loop over the eight characters of the value, from character `i` on; the first would be stored
-- twice if `!data[3] == ' '`.
unfoldable pub value_loop : ℕ → ℕ → Text → Text
value_loop zero i data_ = []
value_loop (suc n) i data_ =
    let c = get_or data_ (i + 3) 0 in
    let rest = value_loop n (suc i) data_ in
    if (i == 0) && (negation c == 32) then c ∷ c ∷ rest else c ∷ rest

-- The loop over the three characters of the unit.
unfoldable pub unit_loop : ℕ → ℕ → Text → Text
unit_loop zero i data_ = []
unit_loop (suc n) i data_ =
    let c = get_or data_ (i + 11) 0 in
    let rest = unit_loop n (suc i) data_ in if c == 32 then rest else c ∷ rest

-- `val` and `unit`.
unfoldable pub value_of : Text → Text
unfolding value_loop c_string
value_of data_ = c_string (value_loop 8 0 data_)

unfoldable pub unit_of : Text → Text
unfolding unit_loop c_string
unit_of data_ = c_string (unit_loop 3 0 data_)

-- `root`.
abbrev pub measurement : ℤ → Text → Text → Json
measurement used symbol data_ = obj (
    field (codes "steady") (str (codes "true")) (
      field (codes "timeUse") (num used) (
        field (codes "symbol") (str symbol) (
          field (codes "value") (str (value_of data_))
            (field (codes "unit") (str (unit_of data_)) end)))))

-- m_updater->UpdateInfo.
abbrev pub send_update : Text → ElecBalance → ElecBalance
send_update msg b = record b { updates = b.updates ++ (msg ∷ []) }

-- CancelTimer and `m_balanceClTimer = -1`.
abbrev pub stopped : Option ℕ → ElecBalance → ElecBalance
stopped none b = b
stopped (some tid) b = record b { looper = cancel_timer tid b.looper; timer = none }

unfoldable pub stop_timer : ElecBalance → ElecBalance
stop_timer b = stopped b.timer b

-- ScheduleTimer if there is no timer.
unfoldable pub start_timer : ElecBalance → ElecBalance
start_timer b = elim b.timer [
  | some tid ↦ b
  | none ↦
      let (tid, looper') =
        schedule_timer true true b.made b.added fire_periodically b.sink b.looper in
      record b { looper = looper'; timer = tid }
]

module _ (styled : Json → Text) where
  -- A steady frame, by its sign.
  unfoldable pub on_steady : Text → ℕ → ElecBalance → ElecBalance
  on_steady data_ now b =
      let used = time_use now b.start_time in
      if get_or data_ 2 0 == 43
      then send_update (styled (measurement used (codes "+") data_)) b
      else if get_or data_ 2 0 == 45
      then send_update (styled (measurement used (codes "-") data_)) b
      else send_update (codes "errorData") b

  -- ElecBalance::OnData.
  unfoldable pub on_data : Text → ℕ → ElecBalance → ElecBalance
  unfolding start_timer stop_timer on_steady
  on_data data_ now b =
      if get_or data_ 0 0 == 75
      then (if get_or data_ 1 0 == 42
          then start_timer b
          else if get_or data_ 1 0 == 32
          then on_steady data_ now (stop_timer b)
          else send_update (codes "errorData") (stop_timer b))
      else send_update (codes "errorFrame") b

-- TimeMark.
unfoldable pub time_mark : ℕ → ElecBalance → ElecBalance
time_mark now b = record b { start_time = now }

-- Equipment::OnTimer: the value is asked for again.
unfoldable pub on_timer : ℕ → ElecBalance → ElecBalance
on_timer tid b = elim b.timer [
  | none ↦ b
  | some own ↦ if tid == own then record b { written = b.written ++ (codes "%ER" ∷ []) } else b
]
