-- ===== src/Command/Down/Objects.antt =====
-- Commands in JSON through DownInfo of transcation/Transcation.cpp.
use dev_hub.Base.{◌≡◌, refl, true, Option, some, Text, codes, ℤ, Json, str, obj, Fields}
use dev_hub.Command.Process.{WritesObjects, Settles, HasNumber, Knows, process_cmd-Settles}
use dev_hub.Task.{task_accept, format_json, Task, World, start_response_timer}
use dev_hub.Command.{
  Transcation, check, find_field, member, int_value, Request, Devices, process_cmd,
}
use dev_hub.Command.Down.{dispatch, down_value, down_info}

-- DownInfo of a JSON command that the transcation lists.
down_info_json :
    (parse : Text → Option Json) (styled : Json → Text) (stoi : Text → Option ℤ) (tc : Transcation)
    (info cmd : Text) (n : ℤ) (fs : Fields) (t : Task) (w : World Devices)
    → parse info ≡ some (obj fs)
    → find_field (codes "cmd") fs ≡ str cmd
    → int_value (find_field (codes "ReqId") fs) ≡ some n
    → check cmd tc.command_names ≡ true
    → let started = start_response_timer (record t { format = format_json }) w in
      down_info parse styled stoi tc info (t, w)
      ≡ process_cmd styled tc
          (record { cmd = cmd; req_id = n; param = find_field (codes "param") fs })
          (record started.0 { status = task_accept }, started.1)
unfolding down_info down_value member dispatch
down_info_json parse styled stoi tc info cmd n fs t w p c q l =
    rw (p, down_info) rw (c, down_value, member) rw (q, member) rw (l, dispatch) refl

-- A command in JSON that the transcation lists and its ProcessCmd knows, with a number as `ReqId`
-- that is an `int` for the library, and a parameter that is missing, null or starts with nothing, a
-- truth value or a number that the library converts to an `int`: DownInfo throws no exception, and after it either the task runs and nothing was sent, or the task is idle
-- and exactly one message was sent.
pub down_info-Settles :
    (parse : Text → Option Json) (styled : Json → Text) (stoi : Text → Option ℤ)
    → WritesObjects styled
    → (tc : Transcation) (info cmd : Text) (n : ℤ) (fs : Fields) (t : Task) (w : World Devices)
    → parse info ≡ some (obj fs)
    → find_field (codes "cmd") fs ≡ str cmd
    → int_value (find_field (codes "ReqId") fs) ≡ some n
    → check cmd tc.command_names ≡ true
    → Knows tc.kind cmd
    → HasNumber (record { cmd = cmd; req_id = n; param = find_field (codes "param") fs })
    → Settles (t, w) (down_info parse styled stoi tc info (t, w))
unfolding start_response_timer
down_info-Settles parse styled stoi writes tc info cmd n fs t w p c q l k h =
    let r : Request = record { cmd = cmd; req_id = n; param = find_field (codes "param") fs } in
    let started = start_response_timer (record t { format = format_json }) w in
    rw (down_info_json parse styled stoi tc info cmd n fs t w p c q l) (
      process_cmd-Settles styled writes tc r (record started.0 { status = task_accept }, started.1)
        k h)
