-- ===== src/Task/Timeout.antt =====
-- The response timer of a task, from StartResponseTimer over the reply to the looper.
use dev_hub.Base.{
  ℕ, ◌<◌, ◌≡◌, ◌≢◌, refl, ◌∙◌, true, Option, none, some, [], ◌∷◌, ◌++◌, ==_self, Text, Json, length,
}
use mathlib.Core.List.{append_assoc}
use dev_hub.Looper.{fire_periodically, schedule_timer, cancel_timer, cancel, call, calls}
use dev_hub.Looper.Tracking.{IsValid}
use dev_hub.Looper.Lost.{Listed, schedule_timer_uncancellable, cancel_timer-schedule_timer}
use dev_hub.Task.{
  task_idle, Task, World, nothing_to_do, reset_all_trans_status, start_response_timer,
  stop_response_timer, cancel_timer_id, finish, update, timeout_message, on_timer,
}
use dev_hub.Task.Update.{update-result}

module _ {D : Type 0} (styled : Json → Text) where
  -- A command is accepted and its result goes out.
  unfoldable pub accept_and_reply : Text → ℕ → Task → World D → Task × World D
  accept_and_reply result ts t w =
      let (t', w') = start_response_timer t w in update styled result ts t' w'

  abbrev replied : Text → Task → World D → Task × World D
  replied result t w = finish result (start_response_timer t w).0 (start_response_timer t w).1

  accept_and_reply-finish :
      (result : Text) (ts : ℕ) (t : Task) (w : World D)
      → result ≢ nothing_to_do
      → accept_and_reply result ts t w ≡ replied result t w
  unfolding accept_and_reply
  accept_and_reply-finish result ts t w ne =
      update-result styled result ts (start_response_timer t w).0 (start_response_timer t w).1 ne

  -- With no other timer in the looper, the reply to a command takes the command's response timer
  -- back: libevent holds what it held before, and the one message is the result.
  pub accept_and_reply_cancels :
      (result : Text) (ts : ℕ) (t : Task) (w : World D)
      → result ≢ nothing_to_do
      → IsValid w.looper
      → w.looper.timers ≡ []
      → w.made ≡ true
      → w.added ≡ true
      → let (t', w') = accept_and_reply result ts t w in
        (t'.status ≡ task_idle)
        × (w'.looper.pending ≡ w.looper.pending)
        × (w'.sent ≡ w.sent ++ (result ∷ []))
  accept_and_reply_cancels result ts t w ne v e made added =
      rw (accept_and_reply-finish result ts t w ne) (
        unfold finish start_response_timer stop_response_timer in
        rw (made, added)
          (unfold schedule_timer in
            (refl, (cancel_timer-schedule_timer fire_periodically t.sink w.looper v e).2, refl)))

  sent-cancel_timer_id : (tid : Option ℕ) (w : World D) → (cancel_timer_id tid w).sent ≡ w.sent
  sent-cancel_timer_id none w = refl
  sent-cancel_timer_id (some tid) w = refl

  -- The response timer of a task, when it fires, makes it send exactly its "Timeout" message.
  on_timer-own :
      (on_task_timeout : ℕ → D → D) (tid : ℕ) (t : Task) (w : World D)
      → (on_timer styled on_task_timeout tid (record t { response_timeout = some tid }) w).1.sent
        ≡ w.sent ++ (timeout_message styled t ∷ [])
  unfolding on_timer stop_response_timer timeout_message
  on_timer-own f tid t w = rw (==_self tid) (rw (sent-cancel_timer_id w.balance_timer) refl)

  -- With another timer in the looper's list, the response timer of a command outlives the reply:
  -- the task is idle, the timer is still armed, and when it fires the task takes it for its own
  -- and sends a "Timeout" message after the result.
  pub accept_and_reply_late_timeout :
      (on_task_timeout : ℕ → D → D) (result : Text) (ts : ℕ) (t : Task) (w : World D)
      → result ≢ nothing_to_do
      → IsValid w.looper
      → 0 < length w.looper.timers
      → w.made ≡ true
      → w.added ≡ true
      → let (t', w') = accept_and_reply result ts t w in
        (t'.status ≡ task_idle)
        × Listed
            (record { id = w.looper.next_id; sink = t.sink; flag = fire_periodically })
            w'.looper.pending
        × ((on_timer styled on_task_timeout w.looper.next_id t' w').1.sent
            ≡ w.sent ++ (result ∷ timeout_message styled t' ∷ []))
  accept_and_reply_late_timeout on_task_timeout result ts t w ne v p made added =
      rw (accept_and_reply-finish result ts t w ne) (
        unfold finish start_response_timer stop_response_timer in
        rw (made, added)
          (unfold schedule_timer in
            (
              refl,
              armed,
              on_timer-own on_task_timeout w.looper.next_id
                    (record t {
                      status = task_idle;
                      rept_status = reset_all_trans_status t.rept_status;
                      response_timeout = some w.looper.next_id;
                    })
                    after
                  ∙ append_assoc w.sent (result ∷ []) (
                      timeout_message styled (record t {
                        status = task_idle;
                        rept_status = reset_all_trans_status t.rept_status;
                        response_timeout = some w.looper.next_id;
                      })
                      ∷ []),
            )))
    where
      after : World D
      after = record w {
        looper =
            cancel_timer w.looper.next_id
              (schedule_timer true true true true fire_periodically t.sink w.looper).1;
        made = true;
        added = true;
        sent = w.sent ++ (result ∷ []);
      }

      armed :
          Listed
            (record { id = w.looper.next_id; sink = t.sink; flag = fire_periodically })
            (cancel_timer w.looper.next_id
              (schedule_timer true true true true fire_periodically t.sink w.looper).1).pending
      armed =
          unfold calls call in
          (schedule_timer_uncancellable fire_periodically t.sink w.looper
            (cancel w.looper.next_id ∷ []) v p).1
