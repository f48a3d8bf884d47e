-- ===== src/Task/Results.antt =====
-- What a task does with a result while other transcations still report, and what that leaves for
-- the next command.
use dev_hub.Base.{
  ℕ, ◌<◌, ◌≡◌, ◌≢◌, refl, ap, ◌∙◌, Bool, true, false, List, [], ◌∷◌, ◌++◌, Text, text_eq_self, Json,
  lookup, insert, All, arith,
}
use mathlib.Core.List.{append_assoc, append-nil}
use dev_hub.Task.{
  task_idle, Task, World, error_command, nothing_to_do, set_trans_status, check_trans_status_all,
  reset_all_trans_status, send_message, stop_response_timer, build_comm_response, response, finish,
  update,
}
use dev_hub.Task.Update.{
  marked, Ascending, AllBelow, status_of, reports, lookup-status_of, insert-status_of,
  update-result, reset-status_of, reports-waiting, next-below, no_reports,
}

abbrev KeysBelow : List (ℕ × Bool) → ℕ → Type 0
KeysBelow m k = All (λ p. p.0 < k) m

lookup-skip : (pre m : List (ℕ × Bool)) (k : ℕ) → KeysBelow pre k → lookup k (pre ++ m) ≡ lookup k m
lookup-skip [] m k h = refl
lookup-skip ((j, b) ∷ pre) m k h = ground (arith, lookup-skip pre m k h.1)

insert-skip :
    (pre m : List (ℕ × Bool)) (k : ℕ) (v : Bool)
    → KeysBelow pre k
    → insert k v (pre ++ m) ≡ pre ++ insert k v m
insert-skip [] m k v h = refl
insert-skip ((j, b) ∷ pre) m k v h = ground (arith, insert-skip pre m k v h.1)

check-append :
    (pre m : List (ℕ × Bool))
    → check_trans_status_all pre ≡ false
    → check_trans_status_all (pre ++ m) ≡ false
unfolding check_trans_status_all
check-append [] m h = cc
check-append ((k, true) ∷ pre) m h = check-append pre m h
check-append ((k, false) ∷ pre) m h = refl

set_trans_status-after :
    (pre : List (ℕ × Bool)) (es ks : List ℕ) (k : ℕ)
    → KeysBelow pre k
    → AllBelow es k
    → set_trans_status k (pre ++ status_of es (k ∷ ks)) ≡ pre ++ status_of (es ++ (k ∷ [])) ks
unfolding set_trans_status
set_trans_status-after pre es ks k hp he = ground (
  arith,
  lookup-skip pre (status_of es (k ∷ ks)) k hp,
  lookup-status_of es ks k he,
  insert-skip pre (status_of es (k ∷ ks)) k true hp,
  insert-status_of es ks k he,
)

-- What an ascending list says of its parts.
record IsParted (ds : List ℕ) (k : ℕ) (rs : List ℕ) : Type 0 where
  left : Ascending ds
  below : AllBelow ds k
  right : Ascending rs
  above : All (λ r. k < r) rs
  apart : All (AllBelow ds) rs

last_of_All :
    (d : ℕ) (ds : List ℕ) (k : ℕ) (rs : List ℕ) → All (λ r. d < r) (ds ++ (k ∷ rs)) → d < k
last_of_All d [] k rs h = h.0
last_of_All d (e ∷ ds) k rs h = last_of_All d ds k rs h.1

All-left : (d : ℕ) (ds es : List ℕ) → All (λ r. d < r) (ds ++ es) → All (λ r. d < r) ds
All-left d [] es h = tt
All-left d (e ∷ ds) es h = (h.0, All-left d ds es h.1)

All-right :
    (d : ℕ) (ds : List ℕ) (k : ℕ) (rs : List ℕ)
    → All (λ r. d < r) (ds ++ (k ∷ rs))
    → All (λ r. d < r) rs
All-right d [] k rs h = h.1
All-right d (e ∷ ds) k rs h = All-right d ds k rs h.1

AllBelow-cons :
    (d : ℕ) (ds rs : List ℕ)
    → All (λ r. d < r) rs
    → All (AllBelow ds) rs
    → All (AllBelow (d ∷ ds)) rs
AllBelow-cons d ds [] h a = tt
AllBelow-cons d ds (r ∷ rs) h a = ((h.0, a.0), AllBelow-cons d ds rs h.1 a.1)

part : (ds : List ℕ) (k : ℕ) (rs : List ℕ) → Ascending (ds ++ (k ∷ rs)) → IsParted ds k rs
part [] k rs a = record { left = tt; below = tt; right = a.1; above = a.0; apart = no_reports rs }
part (d ∷ ds) k rs a =
    let p = part ds k rs a.1 in
    record {
      left = (All-left d ds (k ∷ rs) a.0, p.left);
      below = (last_of_All d ds k rs a.0, p.below);
      right = p.right;
      above = p.above;
      apart = AllBelow-cons d ds rs (All-right d ds k rs a.0) p.apart;
    }

marked-append : (b : Bool) (ds es : List ℕ) → marked b (ds ++ es) ≡ marked b ds ++ marked b es
marked-append b [] es = refl
marked-append b (d ∷ ds) es = ap (λ m. (d, b) ∷ m) (marked-append b ds es)

check-false : (ds : List ℕ) (k : ℕ) → check_trans_status_all (marked false (ds ++ (k ∷ []))) ≡ false
unfolding check_trans_status_all
check-false [] k = refl
check-false (d ∷ ds) k = refl

KeysBelow-marked : (b : Bool) (ds : List ℕ) (k : ℕ) → AllBelow ds k → KeysBelow (marked b ds) k
KeysBelow-marked b [] k h = tt
KeysBelow-marked b (d ∷ ds) k h = (h.0, KeysBelow-marked b ds k h.1)

All-KeysBelow :
    (b : Bool) (ds rs : List ℕ) → All (AllBelow ds) rs → All (KeysBelow (marked b ds)) rs
All-KeysBelow b ds [] h = tt
All-KeysBelow b ds (r ∷ rs) h = (KeysBelow-marked b ds r h.0, All-KeysBelow b ds rs h.1)

module _ {D : Type 0} (styled : Json → Text) where
  -- Once a transcation with a smaller id has replied, the others are only noted.
  reports-after :
      (pre : List (ℕ × Bool)) (es ks : List ℕ) (t : Task) (w : World D)
      → check_trans_status_all pre ≡ false
      → All (KeysBelow pre) ks
      → All (AllBelow es) ks
      → Ascending ks
      → reports styled ks (record t { rept_status = pre ++ status_of es ks }) w
        ≡ (record t { rept_status = pre ++ marked true (es ++ ks) }, w)
  unfolding reports
  reports-after pre es [] t w c hp he a = rw (append-nil, append-nil)
  reports-after pre es (k ∷ ks) t w c hp he a = rw one (
      rw (← append_assoc es (k ∷ []) ks)
        (reports-after pre (es ++ (k ∷ [])) ks t w c hp.1 (next-below es k ks he.1 a.0) a.1))
    where
      one :
          update styled nothing_to_do k (record t { rept_status = pre ++ status_of es (k ∷ ks) }) w
          ≡ (record t { rept_status = pre ++ status_of (es ++ (k ∷ [])) ks }, w)
      one =
          unfold update in
          rw (
            text_eq_self nothing_to_do,
            set_trans_status-after pre es ks k hp.0 he.0,
            check-append pre (status_of (es ++ (k ∷ [])) ks) c,
          )

  -- The transcations of a command report in the order of their ids: `ds` that it is not theirs,
  -- then `k` a result, then `rs` that it is not theirs.
  unfoldable pub handled : List ℕ → ℕ → List ℕ → Text → Task → World D → Task × World D
  unfolding reports
  handled ds k rs result t w =
      let (t₁, w₁) = reports styled ds t w in
      let (t₂, w₂) = update styled result k t₁ w₁ in reports styled rs t₂ w₂

  finish-status_of :
      (result : Text) (ds : List ℕ) (k : ℕ) (rs : List ℕ) (t : Task) (w : World D)
      → finish result (record t { rept_status = status_of ds (k ∷ rs) }) w ≡ (
        record t {
          rept_status = marked false (ds ++ (k ∷ [])) ++ marked false rs;
          status = task_idle;
        },
        stop_response_timer t (send_message result w),
      )
  unfolding finish stop_response_timer
  finish-status_of result ds k rs t w = rw (
    reset-status_of ds (k ∷ rs),
    ← marked-append false (ds ++ (k ∷ [])) rs,
    append_assoc ds (k ∷ []) rs,
  )

  -- One transcation of a task has a result and all others say that the command is not theirs, the
  -- ids ascending and nothing reported before: exactly the result is sent, the task is idle and
  -- its response timer cancelled. But the reports that came after the result stay noted: the task
  -- enters the next command with the ids of `rs` marked as reported.
  pub handled_result :
      (ds : List ℕ) (k : ℕ) (rs : List ℕ) (result : Text) (t : Task) (w : World D)
      → Ascending (ds ++ (k ∷ rs))
      → result ≢ nothing_to_do
      → handled ds k rs result (record t { rept_status = marked false (ds ++ (k ∷ rs)) }) w ≡ (
        record t {
          rept_status = marked false (ds ++ (k ∷ [])) ++ marked true rs;
          status = task_idle;
        },
        stop_response_timer t (send_message result w),
      )
  unfolding handled
  handled_result ds k rs result t w a ne =
      let p = part ds k rs a in
      rw
        (
          reports-waiting styled [] ds rs k t w (no_reports ds) p.left,
          update-result styled result k (record t { rept_status = status_of ds (k ∷ rs) }) w ne,
          finish-status_of result ds k rs t w,
        )
        (reports-after (marked false (ds ++ (k ∷ []))) [] rs (record t { status = task_idle })
          (stop_response_timer t (send_message result w)) (check-false ds k)
          (All-KeysBelow false (ds ++ (k ∷ [])) rs (next-below ds k rs p.apart p.above))
          (no_reports rs) p.right)

  sent-stop_response_timer : (t : Task) (w : World D) → (stop_response_timer t w).sent ≡ w.sent
  unfolding stop_response_timer
  sent-stop_response_timer t w = ground arith

  sent-update :
      (result : Text) (ts : ℕ) (t : Task) (w : World D)
      → result ≢ nothing_to_do
      → (update styled result ts t w).1.sent ≡ w.sent ++ (result ∷ [])
  sent-update result ts t w ne =
      rw (update-result styled result ts t w ne)
        (unfold finish in sent-stop_response_timer t (send_message result w))

  three_sent :
      (t' : Task) (error result₁ result₂ : Text) (t : Task) (w : World D)
      → (stop_response_timer t'
            (send_message error (stop_response_timer t (send_message result₁ w)))).sent
          ++ (result₂ ∷ [])
        ≡ w.sent ++ (result₁ ∷ error ∷ result₂ ∷ [])
  three_sent t' error result₁ result₂ t w = simp (sent-stop_response_timer, append_assoc)

  update-stale :
      (k₁ k₂ : ℕ) (t : Task) (w : World D)
      → update styled nothing_to_do k₁ (record t { rept_status = (k₁, false) ∷ (k₂, true) ∷ [] }) w
        ≡ (
          record t { rept_status = marked false (k₁ ∷ k₂ ∷ []); status = task_idle },
          stop_response_timer t
              (send_message (response styled error_command t t.cmd_name t.req_id) w),
        )
  unfolding update finish stop_response_timer response build_comm_response
  update-stale k₁ k₂ t w = rw (text_eq_self nothing_to_do, stale, all_reported, reset_both)
    where
      stale : set_trans_status k₁ ((k₁, false) ∷ (k₂, true) ∷ []) ≡ (k₁, true) ∷ (k₂, true) ∷ []
      stale = unfold set_trans_status in ground arith

      all_reported : check_trans_status_all ((k₁, true) ∷ (k₂, true) ∷ []) ≡ true
      all_reported = unfold check_trans_status_all in refl

      reset_both :
          reset_all_trans_status ((k₁, true) ∷ (k₂, true) ∷ []) ≡ (k₁, false) ∷ (k₂, false) ∷ []
      reset_both = unfold reset_all_trans_status in refl

  -- A task of two transcations, `k₁` before `k₂`, none of them reported. The first command is
  -- handled by `k₁`, the next one by `k₂`, and the other transcation says each time that the
  -- command is not its own. Then the peer gets three messages for its two commands: between the
  -- results stands an "error command" reply.
  pub handled_twice :
      (k₁ k₂ : ℕ) (result₁ result₂ : Text) (t : Task) (w : World D)
      → k₁ < k₂
      → result₁ ≢ nothing_to_do
      → result₂ ≢ nothing_to_do
      → let (t₁, w₁) =
          handled [] k₁
            (k₂ ∷ [])
            result₁
            (record t { rept_status = marked false (k₁ ∷ k₂ ∷ []) })
            w in
        let (t₂, w₂) = handled (k₁ ∷ []) k₂ [] result₂ t₁ w₁ in
        w₂.sent
        ≡ w.sent ++ (result₁ ∷ response styled error_command t t.cmd_name t.req_id ∷ result₂ ∷ [])
  handled_twice k₁ k₂ result₁ result₂ t w lt ne₁ ne₂ =
      let idle = record t { status = task_idle } in
      let w₁ = stop_response_timer t (send_message result₁ w) in
      let error = response styled error_command idle t.cmd_name t.req_id in
      rw (handled_result [] k₁ (k₂ ∷ []) result₁ t w ((lt, tt), (tt, tt)) ne₁) (
        unfold handled reports in
        rw
          (
            update-stale k₁ k₂ idle w₁,
            sent-update result₂ k₂ (record idle { rept_status = marked false (k₁ ∷ k₂ ∷ []) })
                (stop_response_timer idle (send_message error w₁)) ne₂,
          )
          (three_sent idle error result₁ result₂ t w
            ∙ ap (λ (e : Text). w.sent ++ (result₁ ∷ e ∷ result₂ ∷ []))
                (unfold response build_comm_response in refl)))
