-- ===== src/Server/Tests.antt =====
-- Runs of the server, and its theorems at concrete inputs.
use dev_hub.Base.{
  ℕ, ◌≡◌, ◌≢◌, refl, true, false, not, ◌&&◌, ◌||◌, ◌==◌, some, List, [], ◌∷◌, Text, contains, arith,
}
use dev_hub.Task.{TaskStatus, task_idle}
use dev_hub.Server.{
  Server, remove_session, on_disconnect, on_connection, on_frame, busy_message, update, update_info,
}
use dev_hub.Server.Subscribe.{subscribed, on_connection-subscribed}
use dev_hub.Server.Remove.{IsValid, remove_session-subscribed}
use dev_hub.Server.Frame.{targets, each, Ascending, on_frame-targets}
use dev_hub.Server.{use_of_deleted}
use dev_hub.Server.Broadcast.{Event, connects, disconnects, after, update_info-dangling}

-- Sessions 7 and 8; both take part in the transcation 2.
abbrev two : List (ℕ × List ℕ)
two = (1, 7 ∷ []) ∷ (2, 7 ∷ 8 ∷ []) ∷ []

two-IsValid : IsValid two
two-IsValid = ground arith

both_closed : remove_session 8 (remove_session 7 two) ≡ []
unfolding remove_session
both_closed = refl

to_two : update (λ s (out : List ℕ). s ∷ out) 2 two [] ≡ 8 ∷ 7 ∷ []
unfolding update
to_two = refl

remove_session-subscribed_example :
    subscribed 2 8 (remove_session 7 two) ≡ (subscribed 2 8 two && not (8 == 7))
remove_session-subscribed_example = remove_session-subscribed 7 2 8 two two-IsValid

abbrev hub : Server
hub = record {
  connections = 70 ∷ 80 ∷ [];
  transcation_sessions = two;
  session_list = [];
  live = 80 ∷ 70 ∷ [];
}

on_connection-subscribed_example :
    let srv' =
      (on_connection
        (λ id s (n : ℕ). n)
        (λ id s n. n)
        true
        true
        false
        true
        90
        9
        (1 ∷ [])
        hub
        0).0 in
    (subscribed 1 9 srv'.transcation_sessions
      ≡ ((true && contains 1 (1 ∷ []) && 9 == 9) || subscribed 1 9 two))
    × (srv'.connections ≡ 70 ∷ 80 ∷ 90 ∷ [])
    × (srv'.live ≡ 90 ∷ 80 ∷ 70 ∷ [])
on_connection-subscribed_example =
    on_connection-subscribed (λ id s (n : ℕ). n) (λ id s n. n) true true false true 90 9 (1 ∷ [])
      hub 0 1 9

abbrev log_down : ℕ → Text → List ℕ → List ℕ
log_down id frame out = id ∷ out

abbrev keep : Text → List ℕ → List ℕ
keep msg st = 0 ∷ st

abbrev idle_always : List ℕ → TaskStatus
idle_always st = task_idle

on_frame-targets_example :
    (task_idle ≢ task_idle
      → on_frame log_down (λ v. []) keep idle_always (5 ∷ []) 7 two []
        ≡ keep (busy_message (λ v. [])) [])
    × (task_idle ≡ task_idle
        → on_frame log_down (λ v. []) keep idle_always (5 ∷ []) 7 two []
          ≡ each log_down (5 ∷ []) (targets 7 two) [])
    × Ascending (targets 7 two)
    × ((id : ℕ) → contains id (targets 7 two) ≡ subscribed id 7 two)
on_frame-targets_example =
    on_frame-targets log_down (λ v. []) keep idle_always (5 ∷ []) 7 two [] two-IsValid

-- A session comes and goes after it, and the freed connection 70 is still used.
abbrev two_later : List Event
two_later = connects true true false true 90 9 (1 ∷ []) ∷ disconnects 9 (some 90) ∷ []

update_info-dangling_example :
    (contains 70
        (after
          (λ id s (n : ℕ). n)
          (λ id s n. n)
          two_later
          (on_disconnect 7 (some 70) hub)
          0).0.connections
      ≡ true)
    × (update_info
          (9 ∷ [])
          1
          (after (λ id s (n : ℕ). n) (λ id s n. n) two_later (on_disconnect 7 (some 70) hub) 0).0
        ≡ use_of_deleted)
update_info-dangling_example =
    update_info-dangling (λ id s (n : ℕ). n) (λ id s n. n) (9 ∷ []) 1 7 70 hub two_later 0 refl
      (ground arith) (ground arith) (omega arith)
