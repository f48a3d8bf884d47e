-- ===== src/Task/Tests.antt =====
-- Runs of the task, and its theorems at concrete inputs.
use dev_hub.Base.{
  ℕ, ◌≡◌, ◌≢◌, refl, true, false, none, [], ◌∷◌, ◌++◌, Text, codes, text_eq, show_int, pos, Json,
  str, arith,
}
use dev_hub.Looper.{Looper, fire_periodically, new_looper}
use dev_hub.Looper.Tracking.{IsValid}
use dev_hub.Looper.Lost.{Listed}
use dev_hub.Task.{
  task_idle, task_accept, format_common, Task, World, nothing_to_do, error_command,
  stop_response_timer, send_message, response, build_comm_response, finish, set_trans_status,
  check_trans_status_all, reset_all_trans_status, update, on_timer, timeout_message,
}
use dev_hub.Task.Update.{marked, reports, reports_error}
use dev_hub.Task.Results.{handled, handled_result, handled_twice}
use dev_hub.Task.Timeout.{accept_and_reply, accept_and_reply_cancels, accept_and_reply_late_timeout}

abbrev plain : Json → Text
plain (str s) = s
plain _ = codes "json"

abbrev fresh : Task
fresh = record {
  status = task_accept;
  format = format_common;
  machine_id = codes "m";
  station_id = codes "s";
  slot_id = codes "0";
  rept_status = [];
  cmd_name = codes "BalanceQp";
  req_id = pos 7;
  response_timeout = none;
  sink = 5;
}

abbrev quiet : World ℕ
quiet = record {
  looper = new_looper;
  made = true;
  added = true;
  sent = [];
  balance_timer = none;
  devices = 0;
}

abbrev ticking : Looper
ticking = record {
  timers = record { id = 1; sink = 7; flag = fire_periodically } ∷ [];
  next_id = 2;
  pending = record { id = 1; sink = 7; flag = fire_periodically } ∷ [];
}

abbrev ok_reply : Text
ok_reply = 79 ∷ 75 ∷ []

ok_reply-ne : ok_reply ≢ nothing_to_do
ok_reply-ne = ground arith

new_looper-IsValid : IsValid new_looper
new_looper-IsValid = omega arith

ticking-IsValid : IsValid ticking
ticking-IsValid = omega arith

-- The reply in the plain format.
comm_reply :
    (update plain nothing_to_do 3
      (record fresh { rept_status = marked false (3 ∷ []) })
      quiet).1.sent
    ≡ codes "m,s,0,BalanceQp,3,7" ∷ []
unfolding update finish response build_comm_response set_trans_status check_trans_status_all
    reset_all_trans_status stop_response_timer text_eq show_int
comm_reply = refl

reports_error_example :
    reports plain (1 ∷ 2 ∷ []) (record fresh { rept_status = marked false (1 ∷ 2 ∷ []) }) quiet ≡ (
      record fresh { rept_status = marked false (1 ∷ 2 ∷ []); status = task_idle },
      stop_response_timer fresh
          (send_message (response plain error_command fresh (codes "BalanceQp") (pos 7)) quiet),
    )
reports_error_example = reports_error plain (1 ∷ []) 2 fresh quiet (omega arith) (omega arith)

handled_result_example :
    handled plain
      (1 ∷ [])
      2
      (3 ∷ [])
      ok_reply
      (record fresh { rept_status = marked false (1 ∷ 2 ∷ 3 ∷ []) })
      quiet
    ≡ (
      record fresh {
        rept_status = marked false (1 ∷ 2 ∷ []) ++ marked true (3 ∷ []);
        status = task_idle;
      },
      stop_response_timer fresh (send_message ok_reply quiet),
    )
handled_result_example =
    handled_result plain (1 ∷ []) 2 (3 ∷ []) ok_reply fresh quiet (omega arith) ok_reply-ne

handled_twice_example :
    let (t₁, w₁) =
      handled plain [] 1
        (2 ∷ [])
        ok_reply
        (record fresh { rept_status = marked false (1 ∷ 2 ∷ []) })
        quiet in
    let (t₂, w₂) = handled plain (1 ∷ []) 2 [] ok_reply t₁ w₁ in
    w₂.sent
    ≡ ok_reply ∷ response plain error_command fresh (codes "BalanceQp") (pos 7) ∷ ok_reply ∷ []
handled_twice_example =
    handled_twice plain 1 2 ok_reply ok_reply fresh quiet (omega arith) ok_reply-ne ok_reply-ne

accept_and_reply_cancels_example :
    let (t', w') = accept_and_reply plain ok_reply 1 fresh quiet in
    (t'.status ≡ task_idle) × (w'.looper.pending ≡ []) × (w'.sent ≡ ok_reply ∷ [])
accept_and_reply_cancels_example =
    accept_and_reply_cancels plain ok_reply 1 fresh quiet ok_reply-ne new_looper-IsValid refl refl
      refl

abbrev busy : World ℕ
busy = record quiet { looper = ticking }

accept_and_reply_late_timeout_example :
    let (t', w') = accept_and_reply plain ok_reply 1 fresh busy in
    (t'.status ≡ task_idle)
    × Listed (record { id = 2; sink = 5; flag = fire_periodically }) w'.looper.pending
    × ((on_timer plain (λ k d. d) 2 t' w').1.sent ≡ ok_reply ∷ timeout_message plain t' ∷ [])
accept_and_reply_late_timeout_example =
    accept_and_reply_late_timeout plain (λ k d. d) ok_reply 1 fresh busy ok_reply-ne ticking-IsValid
      (omega arith) refl refl
