-- ===== src/Task/Update.antt =====
-- The replies of a task whose command goes to several transcations.
use dev_hub.Base.{
  ℕ, ◌<◌, ◌≡◌, ◌≢◌, refl, ap, ◌∙◌, Bool, true, false, some, List, [], ◌∷◌, ◌++◌, Text, text_eq_iff,
  text_eq_self, Json, lookup, insert, All, All-append, arith,
}
use mathlib.Core.List.{append_assoc, append-nil}
use dev_hub.Task.{
  task_idle, Task, World, error_command, nothing_to_do, set_trans_status, check_trans_status_all,
  reset_all_trans_status, send_message, stop_response_timer, build_comm_response, response, finish,
  update,
}

abbrev pub marked : Bool → List ℕ → List (ℕ × Bool)
marked b [] = []
marked b (k ∷ ks) = (k, b) ∷ marked b ks

abbrev pub AllBelow : List ℕ → ℕ → Type 0
AllBelow ds k = All (λ d. d < k) ds

abbrev pub Ascending : List ℕ → Type 0
Ascending [] = Unit
Ascending (k ∷ ks) = All (λ r. k < r) ks × Ascending ks

-- `ds` reported already, `rs` has still to report.
abbrev pub status_of : List ℕ → List ℕ → List (ℕ × Bool)
status_of ds rs = marked true ds ++ marked false rs

pub lookup-status_of :
    (ds rs : List ℕ) (k : ℕ) → AllBelow ds k → lookup k (status_of ds (k ∷ rs)) ≡ some false
lookup-status_of [] rs k h = ground arith
lookup-status_of (d ∷ ds) rs k h = ground (arith, lookup-status_of ds rs k h.1)

pub insert-status_of :
    (ds rs : List ℕ) (k : ℕ)
    → AllBelow ds k
    → insert k true (status_of ds (k ∷ rs)) ≡ status_of (ds ++ (k ∷ [])) rs
insert-status_of [] rs k h = ground arith
insert-status_of (d ∷ ds) rs k h = ground (arith, insert-status_of ds rs k h.1)

pub set_trans_status-status_of :
    (ds rs : List ℕ) (k : ℕ)
    → AllBelow ds k
    → set_trans_status k (status_of ds (k ∷ rs)) ≡ status_of (ds ++ (k ∷ [])) rs
unfolding set_trans_status
set_trans_status-status_of ds rs k h =
    ground (arith, lookup-status_of ds rs k h, insert-status_of ds rs k h)

pub check-waiting :
    (ds rs : List ℕ) (k : ℕ) → check_trans_status_all (status_of ds (k ∷ rs)) ≡ false
unfolding check_trans_status_all
check-waiting [] rs k = refl
check-waiting (d ∷ ds) rs k = check-waiting ds rs k

pub check-done : (ds : List ℕ) → check_trans_status_all (status_of ds []) ≡ true
unfolding check_trans_status_all
check-done [] = refl
check-done (d ∷ ds) = check-done ds

pub reset-status_of :
    (ds rs : List ℕ) → reset_all_trans_status (status_of ds rs) ≡ marked false (ds ++ rs)
unfolding reset_all_trans_status
reset-status_of [] [] = refl
reset-status_of [] (r ∷ rs) = ap (λ m. (r, false) ∷ m) (reset-status_of [] rs)
reset-status_of (d ∷ ds) rs = ap (λ m. (d, false) ∷ m) (reset-status_of ds rs)

pub next-below :
    (ds : List ℕ) (k : ℕ) (ks : List ℕ)
    → All (AllBelow ds) ks
    → All (λ r. k < r) ks
    → All (AllBelow (ds ++ (k ∷ []))) ks
next-below ds k [] h a = tt
next-below ds k (r ∷ rs) h a =
    (All-append (λ d. d < r) ds (k ∷ []) h.0 (a.0, tt), next-below ds k rs h.1 a.1)

pub no_reports : (ks : List ℕ) → All (AllBelow []) ks
no_reports [] = tt
no_reports (k ∷ ks) = (tt, no_reports ks)

reset-done : (ds : List ℕ) → reset_all_trans_status (status_of ds []) ≡ marked false ds
reset-done ds = rw (reset-status_of ds [], append-nil ds)

module _ {D : Type 0} (styled : Json → Text) where
  -- The transcations report, in this order, that the command is not theirs.
  unfoldable pub reports : List ℕ → Task → World D → Task × World D
  reports [] t w = (t, w)
  reports (k ∷ ks) t w = let (t', w') = update styled nothing_to_do k t w in reports ks t' w'

  update-waiting :
      (ds rs : List ℕ) (k r : ℕ) (t : Task) (w : World D)
      → AllBelow ds k
      → update styled nothing_to_do k (record t { rept_status = status_of ds (k ∷ r ∷ rs) }) w
        ≡ (record t { rept_status = status_of (ds ++ (k ∷ [])) (r ∷ rs) }, w)
  unfolding update
  update-waiting ds rs k r t w h = rw (
    text_eq_self nothing_to_do,
    set_trans_status-status_of ds (r ∷ rs) k h,
    check-waiting (ds ++ (k ∷ [])) rs r,
  )

  update-last :
      (ds : List ℕ) (k : ℕ) (t : Task) (w : World D)
      → AllBelow ds k
      → update styled nothing_to_do k (record t { rept_status = status_of ds (k ∷ []) }) w ≡ (
        record t { rept_status = marked false (ds ++ (k ∷ [])); status = task_idle },
        stop_response_timer t
            (send_message (response styled error_command t t.cmd_name t.req_id) w),
      )
  unfolding update finish stop_response_timer response build_comm_response
  update-last ds k t w h = rw (
    text_eq_self nothing_to_do,
    set_trans_status-status_of ds [] k h,
    check-done (ds ++ (k ∷ [])),
    reset-done (ds ++ (k ∷ [])),
  )

  -- A result that is not "NothingToDo" goes out at once, whatever the others said.
  pub update-result :
      (result : Text) (ts : ℕ) (t : Task) (w : World D)
      → result ≢ nothing_to_do
      → update styled result ts t w ≡ finish result t w
  unfolding update
  update-result result ts t w ne = ground (arith, text_eq_iff result nothing_to_do)

  pub reports-waiting :
      (ds ks rs : List ℕ) (r : ℕ) (t : Task) (w : World D)
      → All (AllBelow ds) ks
      → Ascending ks
      → reports ks (record t { rept_status = status_of ds (ks ++ (r ∷ rs)) }) w
        ≡ (record t { rept_status = status_of (ds ++ ks) (r ∷ rs) }, w)
  unfolding reports
  reports-waiting ds [] rs r t w hs a = rw (append-nil ds)
  reports-waiting ds (k ∷ []) rs r t w hs a = update-waiting ds rs k r t w hs.0
  reports-waiting ds (k ∷ k' ∷ ks) rs r t w hs a =
      rw (update-waiting ds (ks ++ (r ∷ rs)) k k' t w hs.0) (
        rw (← append_assoc ds (k ∷ []) (k' ∷ ks)) (
          reports-waiting (ds ++ (k ∷ [])) (k' ∷ ks) rs r t w (next-below ds k (k' ∷ ks) hs.1 a.0)
            a.1))

  reports-append :
      (ks ls : List ℕ) (t : Task) (w : World D)
      → reports (ks ++ ls) t w ≡ (let (t', w') = reports ks t w in reports ls t' w')
  unfolding reports
  reports-append [] ls t w = refl
  reports-append (k ∷ ks) ls t w =
      let (t', w') = update styled nothing_to_do k t w in reports-append ks ls t' w'

  -- A task waits for the transcations `ks` and `last`, none of which has reported yet, and each
  -- says in the order of the ids that the command is not its own. Then exactly one message is
  -- sent, the reply "error command" in the format of the request; the task is idle, waits for the
  -- same transcations again, and its response timer is cancelled.
  pub reports_error :
      (ks : List ℕ) (last : ℕ) (t : Task) (w : World D)
      → Ascending ks
      → All (λ k. k < last) ks
      → reports (ks ++ (last ∷ [])) (record t { rept_status = marked false (ks ++ (last ∷ [])) }) w
        ≡ (
          record t { rept_status = marked false (ks ++ (last ∷ [])); status = task_idle },
          stop_response_timer t
              (send_message (response styled error_command t t.cmd_name t.req_id) w),
        )
  reports_error ks last t w a below =
      reports-append ks (last ∷ []) (record t { rept_status = marked false (ks ++ (last ∷ [])) }) w
      ∙ ap (λ p. reports (last ∷ []) p.0 p.1) (reports-waiting [] ks [] last t w (no_reports ks) a)
      ∙ unfold reports in update-last ks last t w below
