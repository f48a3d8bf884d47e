-- ===== src/Task.antt =====
-- Task of transcation/task.cpp, the reply that a session owes its peer, with the reply texts of
-- transcation/Transcation.cpp. A task lives in a world that holds the looper, the messages that
-- went to its session's SendMessage, the global `m_balanceClTimer` and the devices. `styled` is
-- `Json::Value::toStyledString`.
pub mod Update
pub mod Results
pub mod Timeout
mod Tests
use dev_hub.Base.{
  ℕ, Bool, true, false, Option, none, some, List, [], ◌∷◌, ◌++◌, map, if◌then◌else◌, ◌==◌, ◌&&◌,
  Text, codes, text_eq, ℤ, pos, show_int, Json, num, str, obj, end, field, lookup, insert,
}
use dev_hub.Looper.{Looper, fire_periodically, schedule_timer, cancel_timer}

pub data TaskStatus : Type 0 where
  task_idle task_accept task_run : TaskStatus

pub data CommunicationFormat : Type 0 where
  format_json format_common : CommunicationFormat

-- `none` as a timer is the -1. `sink` names the task as the looper's client.
pub record Task : Type 0 where
  pub status : TaskStatus
  pub format : CommunicationFormat
  pub machine_id : Text
  pub station_id : Text
  pub slot_id : Text
  pub rept_status : List (ℕ × Bool)
  pub cmd_name : Text
  pub req_id : ℤ
  pub response_timeout : Option ℕ
  pub sink : ℕ

-- `made` and `added` say whether libevent's `event_new` and `event_add` succeed.
pub record World (D : Type 0) : Type 0 where
  pub looper : Looper
  pub made : Bool
  pub added : Bool
  pub sent : List Text
  pub balance_timer : Option ℕ
  pub devices : D

abbrev pub error_format : ℤ
error_format = pos 1

abbrev pub error_param : ℤ
error_param = pos 2

abbrev pub error_command : ℤ
error_command = pos 3

abbrev pub error_devopen : ℤ
error_devopen = pos 4

abbrev pub nothing_to_do : Text
nothing_to_do = codes "NothingToDo"

-- BuildCommResponse: the fields of the task, then the command, the error and the request.
unfoldable pub build_comm_response : ℤ → Task → Text → ℤ → Text
build_comm_response error_no task cmd req_id =
    task.machine_id
    ++ (44
        ∷ (task.station_id
            ++ (44
                ∷ (task.slot_id
                    ++ (44 ∷ (cmd ++ (44 ∷ (show_int error_no ++ (44 ∷ show_int req_id)))))))))

-- AddTranscation: a new id is entered as not reported.
unfoldable pub add_transcation : ℕ → Task → Task
add_transcation ts t = elim (lookup ts t.rept_status) [
  | some b ↦ t
  | none ↦ record t { rept_status = insert ts false t.rept_status }
]

-- SetTransStatus: a known id is marked as reported.
unfoldable pub set_trans_status : ℕ → List (ℕ × Bool) → List (ℕ × Bool)
set_trans_status ts m = elim (lookup ts m) [ none ↦ m | some b ↦ insert ts true m ]

-- CheckTransStatusAll.
unfoldable pub check_trans_status_all : List (ℕ × Bool) → Bool
check_trans_status_all [] = true
check_trans_status_all ((k, b) ∷ m) = b && check_trans_status_all m

-- ResetAllTransStatus: all values false, the keys as they were.
unfoldable pub reset_all_trans_status : List (ℕ × Bool) → List (ℕ × Bool)
reset_all_trans_status [] = []
reset_all_trans_status ((k, b) ∷ m) = (k, false) ∷ reset_all_trans_status m

module _ {D : Type 0} where
  abbrev pub send_message : Text → World D → World D
  send_message msg w = record w { sent = w.sent ++ (msg ∷ []) }

  -- CancelTimer of a `TimerID`; the -1 is the id of no timer.
  abbrev pub cancel_timer_id : Option ℕ → World D → World D
  cancel_timer_id none w = w
  cancel_timer_id (some tid) w = record w { looper = cancel_timer tid w.looper }

  -- StartResponseTimer. Its argument, the interval, is for libevent alone.
  unfoldable pub start_response_timer : Task → World D → Task × World D
  start_response_timer t w =
      let (tid, looper') =
        schedule_timer true true w.made w.added fire_periodically t.sink w.looper in
      (record t { response_timeout = tid }, record w { looper = looper' })

  unfoldable pub stop_response_timer : Task → World D → World D
  stop_response_timer t w = cancel_timer_id t.response_timeout w

  -- The end of `Update`: the reply goes out and the task is idle again.
  unfoldable pub finish : Text → Task → World D → Task × World D
  finish res t w = (
    record t { rept_status = reset_all_trans_status t.rept_status; status = task_idle },
    stop_response_timer t (send_message res w),
  )

module _ (styled : Json → Text) where
  -- BuildResponse.
  unfoldable pub build_response : ℤ → Text → ℤ → Text
  build_response error_no cmd req_id = styled (
      obj (
        field (codes "cmd") (str cmd)
          (field (codes "resultCode") (num error_no) (field (codes "ReqId") (num req_id) end))))

  -- The reply in the format of the request.
  unfoldable pub response : ℤ → Task → Text → ℤ → Text
  response error_no t cmd req_id = elim t.format [
    | format_json ↦ build_response error_no cmd req_id
    | format_common ↦ build_comm_response error_no t cmd req_id
  ]

  unfoldable pub timeout_message : Task → Text
  timeout_message t =
      styled (
        obj
          (field (codes "cmd") (str (codes "Timeout")) (field (codes "ReqId") (num t.req_id) end)))

module _ {D : Type 0} (styled : Json → Text) where
  -- Update: a transcation reports its result, or that the command is not its own.
  unfoldable pub update : Text → ℕ → Task → World D → Task × World D
  update result ts t w =
      if text_eq result nothing_to_do
      then (let t' = record t { rept_status = set_trans_status ts t.rept_status } in
          if check_trans_status_all t'.rept_status
          then finish (response styled error_command t' t.cmd_name t.req_id) t' w
          else (t', w))
      else finish result t w

-- Transcation::OnTaskTimeout of each of the task's transcations, by their ids.
unfoldable pub timeout_all : {D : Type 0} → (ℕ → D → D) → List (ℕ × Bool) → D → D
timeout_all on_task_timeout [] d = d
timeout_all on_task_timeout ((k, b) ∷ m) d = timeout_all on_task_timeout m (on_task_timeout k d)

abbrev is_timer : Option ℕ → ℕ → Bool
is_timer none tid = false
is_timer (some k) tid = tid == k

module _ {D : Type 0} (styled : Json → Text) (on_task_timeout : ℕ → D → D) where
  -- OnTimer.
  unfoldable pub on_timer : ℕ → Task → World D → Task × World D
  on_timer tid t w =
      if is_timer t.response_timeout tid
      then (let devices' = timeout_all on_task_timeout t.rept_status w.devices in
          let w' = cancel_timer_id w.balance_timer (record w { devices = devices' }) in
          let t' = record t {
            status = task_idle;
            rept_status = reset_all_trans_status t.rept_status;
          } in
          let w'' = stop_response_timer t' (record w' { balance_timer = none }) in
          (t', send_message (timeout_message styled t') w''))
      else (t, w)
