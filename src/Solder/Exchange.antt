-- ===== src/Solder/Exchange.antt =====
-- The exchange of a solder machine from the command to the reply.
use dev_hub.Base.{ℕ, ◌≡◌, refl, ◌∙◌, true, false, some, List, [], ◌∷◌, ◌++◌, Text, codes, arith}
use dev_hub.Reply.{solder_reply, glue_reply}
use dev_hub.Solder.{
  glue_sequence, solder_sequence, idle, up_load, up_load_rep, up_load_rep_a0, SolderCtrl, Hub,
  Output, write_peripheral, up_stream, output, change_state, request, is_a2, recv_upstream, on_data,
  Event, command, device_data, step, run,
}
use dev_hub.Solder.Run.{hub_at, set_state_at, upstream_at, command_at, up_load_recv_at}
use dev_hub.Solder.Answer.{
  IsAnswer, padded, solder_reply-some, a0_recv_at, a0_refused_at, rep_recv_at, answer_at, run_cons,
  run_one,
}

module _ (convert : ℕ → Text) (m : List (ℕ × SolderCtrl)) (e : ℕ) where
  ack_solder :
      (d : Text) (i r a : ℕ)
      → step convert e (device_data (6 ∷ [])) (hub_at m e solder_sequence up_load d i e r a)
        ≡ some (
          hub_at m e solder_sequence up_load_rep_a0 d i e r e,
          write_peripheral e (request solder_sequence) ∷ [],
        )
  unfolding step on_data recv_upstream change_state output
  ack_solder d i r a =
      upstream_at convert m e solder_sequence (6 ∷ []) up_load d i e r a
      ∙ (up_load_recv_at convert m e solder_sequence d [] i r a
          ∙ rw (set_state_at convert m e solder_sequence up_load up_load_rep_a0 d i e r e) refl)

  ack_glue :
      (d : Text) (i r a : ℕ)
      → step convert e (device_data (6 ∷ [])) (hub_at m e glue_sequence up_load d i e r a)
        ≡ some (
          hub_at m e glue_sequence up_load_rep d i e e a,
          write_peripheral e (request glue_sequence) ∷ [],
        )
  unfolding step on_data recv_upstream change_state output
  ack_glue d i r a =
      upstream_at convert m e glue_sequence (6 ∷ []) up_load d i e r a
      ∙ (up_load_recv_at convert m e glue_sequence d [] i r a
          ∙ rw (set_state_at convert m e glue_sequence up_load up_load_rep d i e e a) refl)

  ask_solder :
      (d : Text) (u r a : ℕ) (evs : List Event) (h : Hub) (out : List Output)
      → run convert e evs (hub_at m e solder_sequence up_load_rep_a0 d e e r e) ≡ some (h, out)
      → run convert e
          (command (codes "GetSpitParam") ∷ device_data (6 ∷ []) ∷ evs)
          (hub_at m e solder_sequence idle d e u r a)
        ≡ some (h, write_peripheral e (5 ∷ []) ∷ write_peripheral e (request solder_sequence) ∷ out)
  ask_solder d u r a evs h out k =
      run_cons convert e (command (codes "GetSpitParam")) (device_data (6 ∷ []) ∷ evs)
        (hub_at m e solder_sequence idle d e u r a) (hub_at m e solder_sequence up_load d e e r a) h
        (write_peripheral e (5 ∷ []) ∷ []) (write_peripheral e (request solder_sequence) ∷ out)
        (unfold step in command_at convert m e solder_sequence d u r a)
        (run_cons convert e (device_data (6 ∷ [])) evs
          (hub_at m e solder_sequence up_load d e e r a)
          (hub_at m e solder_sequence up_load_rep_a0 d e e r e) h
          (write_peripheral e (request solder_sequence) ∷ []) out (ack_solder d e r a) k)

  -- A solder machine that is idle, also after a timeout with bytes `d` of an old answer kept:
  -- the command, the ACK and two answers, the first of which (with `d` in front) is no refusal,
  -- write ENQ, the request, ACK and EOT to the machine and send one reply, read from the second
  -- answer. Afterwards the machine is idle and keeps no bytes, and the others are as before.
  pub run_solder :
      (d first second : Text) (u r a : ℕ)
      → IsAnswer d first
      → IsAnswer [] second
      → is_a2 (padded (d ++ first)) ≡ some false
      → (reply : Text) × (solder_reply (padded second) ≡ some reply)
        × (run convert e
              (command (codes "GetSpitParam")
                ∷ device_data (6 ∷ [])
                ∷ device_data (first ++ (3 ∷ []))
                ∷ device_data (second ++ (3 ∷ []))
                ∷ [])
              (hub_at m e solder_sequence idle d e u r a)
            ≡ some (
              hub_at m e solder_sequence idle [] e e e e,
              write_peripheral e (5 ∷ [])
                  ∷ write_peripheral e (request solder_sequence)
                  ∷ write_peripheral e (6 ∷ [])
                  ∷ up_stream e reply
                  ∷ write_peripheral e (4 ∷ [])
                  ∷ [],
            ))
  unfolding recv_upstream
  run_solder d first second u r a h h' k =
      let (reply, k') = solder_reply-some second (omega (arith, h'.fits)) in
      (
        reply,
        k',
        ask_solder d u r a _ _ _ (
            run_cons convert e (device_data (first ++ (3 ∷ [])))
              (device_data (second ++ (3 ∷ [])) ∷ []) _ _ _ (write_peripheral e (6 ∷ []) ∷ []) _
              (answer_at convert m e solder_sequence up_load_rep_a0 up_load_rep d first e e r e e e
                e e _ h (a0_recv_at convert m e (d ++ first) (padded (d ++ first)) e e r k))
              (run_one convert e (device_data (second ++ (3 ∷ []))) _ _ _ (
                answer_at convert m e solder_sequence up_load_rep idle [] second e e e e e e e e _
                  h'
                  (rep_recv_at convert m e solder_sequence second (padded second) reply e e e
                    k')))),
      )

  -- When the first answer is a refusal (`A2`), a solder machine gets ENQ, the request, the closing
  -- message and EOT, the server gets `{"result":null}`, and the machine is idle with no bytes kept.
  pub run_solder_refused :
      (d first : Text) (u r a : ℕ)
      → IsAnswer d first
      → is_a2 (padded (d ++ first)) ≡ some true
      → run convert e
          (command (codes "GetSpitParam")
            ∷ device_data (6 ∷ [])
            ∷ device_data (first ++ (3 ∷ []))
            ∷ [])
          (hub_at m e solder_sequence idle d e u r a)
        ≡ some (
          hub_at m e solder_sequence idle [] e e r e,
          write_peripheral e (5 ∷ [])
              ∷ write_peripheral e (request solder_sequence)
              ∷ write_peripheral e (2 ∷ (codes "02" ++ (24 ∷ 24 ∷ (codes "6E" ++ (3 ∷ [])))))
              ∷ write_peripheral e (4 ∷ [])
              ∷ up_stream e (codes "{\"result\":null}")
              ∷ [],
        )
  unfolding recv_upstream
  run_solder_refused d first u r a h k = ask_solder d u r a _ _ _ (
      run_one convert e (device_data (first ++ (3 ∷ []))) _ _ _ (
        answer_at convert m e solder_sequence up_load_rep_a0 idle d first e e r e e e r e _ h
          (a0_refused_at convert m e (d ++ first) (padded (d ++ first)) e e r k)))

  -- A glue machine that is idle: the command, the ACK and one answer that has the twelve items
  -- write ENQ, the request and EOT, send the reply, and leave the machine idle with no bytes.
  pub run_glue :
      (d answer reply : Text) (u r a : ℕ)
      → IsAnswer d answer
      → glue_reply convert (padded (d ++ answer)) ≡ some reply
      → run convert e
          (command (codes "GetSpitParam")
            ∷ device_data (6 ∷ [])
            ∷ device_data (answer ++ (3 ∷ []))
            ∷ [])
          (hub_at m e glue_sequence idle d e u r a)
        ≡ some (
          hub_at m e glue_sequence idle [] e e e a,
          write_peripheral e (5 ∷ [])
              ∷ write_peripheral e (request glue_sequence)
              ∷ up_stream e reply
              ∷ write_peripheral e (4 ∷ [])
              ∷ [],
        )
  unfolding recv_upstream step
  run_glue d answer reply u r a h k =
      run_cons convert e (command (codes "GetSpitParam")) _ _
        (hub_at m e glue_sequence up_load d e e r a) _ (write_peripheral e (5 ∷ []) ∷ []) _
        (command_at convert m e glue_sequence d u r a)
        (run_cons convert e (device_data (6 ∷ [])) _ _
          (hub_at m e glue_sequence up_load_rep d e e e a) _
          (write_peripheral e (request glue_sequence) ∷ []) _ (ack_glue d e r a)
          (run_one convert e (device_data (answer ++ (3 ∷ []))) _ _ _ (
            answer_at convert m e glue_sequence up_load_rep idle d answer e e e a e e e a _ h (
              rep_recv_at convert m e glue_sequence (d ++ answer) (padded (d ++ answer)) reply e e a
                k))))
