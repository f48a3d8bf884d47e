-- ===== src/Events/Polls.antt =====
-- Repeated polls of one event of transcation/ev_respond.cpp against what they promise: each frame
-- with a sequence number other than the one before it is reported, no other.
use dev_hub.Base.{
  ℕ, zero, suc, Bool, true, false, List, [], ◌∷◌, ◌++◌, if◌then◌else◌, ◌==◌, Text, ℤ, pos, int_eq,
  Json, ◌≡◌, refl, sym, ap, ◌∙◌, inl, inr, Bool-cases,
}
use mathlib.Core.Path.{subst}
use mathlib.Core.List.{append_assoc, append-nil}
use dev_hub.Events.{
  ProxyOps, MachineContex, EvPara, EventKind, Event, Reach, pass_frame, read_proxy, read_data,
  send_eap_data,
}
use dev_hub.Events.Sniff.{sequence_of, sniff_frame, sniffing_plc_event}

abbrev pub event_at : EventKind → EvPara → ℕ → Event
event_at k p n = record { kind = k; para = p; sequence_id = n }

-- What is promised: `out` of each frame whose sequence number is not that of the frame before it,
-- the first being compared with `n`.
unfoldable pub promised : (List ℕ → List Text) → Bool → ℕ → List (List ℕ) → List Text
promised out swap n [] = []
promised out swap n (buf ∷ bufs) =
    let same = promised out swap n bufs in
    let other = promised out swap (sequence_of swap buf) bufs in
    if n == sequence_of swap buf then same else out buf ++ other

module _ {S : Type 0} (ops : ProxyOps S) (styled : Json → Text) where
  unfoldable pub poll : ℕ → Event × Reach S → Event × Reach S
  poll zero s = s
  poll (suc n) s = poll n (sniffing_plc_event ops styled s)

  -- The frames that the polls read without an error.
  abbrev pub frame_of : ℤ × List ℕ × S → List (List ℕ)
  frame_of (ret, buf, s) = if int_eq ret (pos 0) then buf ∷ [] else []

  unfoldable pub frames : ℕ → Event × Reach S → List (List ℕ)
  frames zero s = []
  frames (suc n) s =
      frame_of (read_proxy ops s.0.para s.1.proxy) ++ frames n (sniffing_plc_event ops styled s)

-- What a report of an event does, up to a likeness of contexes.
pub record IsReporter {S : Type 0} (p : EvPara) (report : Event → List ℕ → Reach S → Reach S)
    (out : Bool → MachineContex → List ℕ → List Text)
    (Like : MachineContex → MachineContex → Type 0) : Type 0 where
  pub sends :
      (k : EventKind) (n : ℕ) (buf : List ℕ) (r : Reach S)
      → (report (event_at k p n) buf r).sent ≡ r.sent ++ out r.client r.contex buf
  pub keeps_client :
      (k : EventKind) (n : ℕ) (buf : List ℕ) (r : Reach S)
      → (report (event_at k p n) buf r).client ≡ r.client
  pub keeps_contex :
      (k : EventKind) (n : ℕ) (buf : List ℕ) (c : MachineContex) (r : Reach S)
      → Like c r.contex
      → Like c (report (event_at k p n) buf r).contex
  pub same_swap : (c d : MachineContex) → Like c d → d.word_swap ≡ c.word_swap
  pub same_out :
      (b : Bool) (c d : MachineContex) (buf : List ℕ) → Like c d → out b d buf ≡ out b c buf

seq_cases :
    (n : ℕ) (a b : Bool) (buf : List ℕ) (v : Bool)
    → a ≡ b
    → (n == sequence_of a buf) ≡ v
    → (n == sequence_of b buf) ≡ v
seq_cases n a b buf v e h = subst (λ x. (n == sequence_of x buf) ≡ v) e h

promised_known :
    (out : List ℕ → List Text) (swap : Bool) (n : ℕ) (buf : List ℕ) (bufs : List (List ℕ))
    → (n == sequence_of swap buf) ≡ true
    → promised out swap n (buf ∷ bufs) ≡ promised out swap n bufs
unfolding promised
promised_known out swap n buf bufs h = rw h refl

promised_new :
    (out : List ℕ → List Text) (swap : Bool) (n : ℕ) (buf : List ℕ) (bufs : List (List ℕ))
    → (n == sequence_of swap buf) ≡ false
    → promised out swap n (buf ∷ bufs) ≡ out buf ++ promised out swap (sequence_of swap buf) bufs
unfolding promised
promised_new out swap n buf bufs h = rw h refl

module _ {S : Type 0} (ops : ProxyOps S) where
  -- The state after a poll that sends nothing, and after one that reports.
  abbrev read_reach : EvPara → Reach S → Reach S
  read_reach p r = record r { proxy = (read_proxy ops p r.proxy).2 }

  abbrev reported :
      (Event → List ℕ → Reach S → Reach S) → EventKind → EvPara → ℕ → Reach S → Reach S
  reported report k p n r =
      let buf = (read_proxy ops p r.proxy).1 in
      send_eap_data ops (event_at k p n) (pass_frame (sequence_of r.contex.word_swap buf))
        (report (event_at k p n) buf (read_reach p r))

  sniff_error :
      (report : Event → List ℕ → Reach S → Reach S) (k : EventKind) (p : EvPara) (n : ℕ)
      (r : Reach S)
      → int_eq (read_proxy ops p r.proxy).0 (pos 0) ≡ false
      → sniff_frame ops report (event_at k p n, r) ≡ (event_at k p n, read_reach p r)
  unfolding sniff_frame read_data
  sniff_error report k p n r z = rw z refl

  sniff_known :
      (report : Event → List ℕ → Reach S → Reach S) (k : EventKind) (p : EvPara) (n : ℕ)
      (r : Reach S)
      → int_eq (read_proxy ops p r.proxy).0 (pos 0) ≡ true
      → (n == sequence_of r.contex.word_swap (read_proxy ops p r.proxy).1) ≡ true
      → sniff_frame ops report (event_at k p n, r) ≡ (event_at k p n, read_reach p r)
  unfolding sniff_frame read_data
  sniff_known report k p n r z y = rw (z, y) refl

  sniff_new :
      (report : Event → List ℕ → Reach S → Reach S) (k : EventKind) (p : EvPara) (n : ℕ)
      (r : Reach S)
      → int_eq (read_proxy ops p r.proxy).0 (pos 0) ≡ true
      → (n == sequence_of r.contex.word_swap (read_proxy ops p r.proxy).1) ≡ false
      → sniff_frame ops report (event_at k p n, r) ≡ (
        event_at k p (sequence_of r.contex.word_swap (read_proxy ops p r.proxy).1),
        reported report k p n r,
      )
  unfolding sniff_frame read_data
  sniff_new report k p n r z y = rw (z, y) refl

module _ {S : Type 0} (ops : ProxyOps S) (styled : Json → Text) where
  -- One poll from `s` to `t` that reads the frames `f`, and then the others.
  poll_step :
      (m : ℕ) (s t : Event × Reach S) (f : List (List ℕ)) (out : List ℕ → List Text) (swap : Bool)
      (n : ℕ)
      → sniffing_plc_event ops styled s ≡ t
      → frame_of ops styled (read_proxy ops s.0.para s.1.proxy) ≡ f
      → (poll ops styled m t).1.sent ≡ s.1.sent ++ promised out swap n (f ++ frames ops styled m t)
      → (poll ops styled (suc m) s).1.sent
        ≡ s.1.sent ++ promised out swap n (frames ops styled (suc m) s)
  unfolding poll frames
  poll_step m s t f out swap n e g h =
      ap (λ x. (poll ops styled m x).1.sent) e
      ∙ h
      ∙ ap (λ x. s.1.sent ++ promised out swap n (x ++ frames ops styled m t)) (sym g)
      ∙ ap
          (λ x.
            s.1.sent
            ++ promised out swap n
                (frame_of ops styled (read_proxy ops s.0.para s.1.proxy) ++ frames ops styled m x))
          (sym e)

  poll_none :
      (s : Event × Reach S) (out : List ℕ → List Text) (swap : Bool) (n : ℕ)
      → (poll ops styled zero s).1.sent ≡ s.1.sent ++ promised out swap n (frames ops styled zero s)
  unfolding poll frames promised
  poll_none s out swap n = sym (append-nil s.1.sent)

join :
    (front sent o o' w w' : List Text) {x : List Text}
    → sent ≡ front ++ o
    → o ≡ o'
    → x ≡ sent ++ w
    → w ≡ w'
    → x ≡ front ++ (o' ++ w')
join front sent o o' w w' hs ho hx hw =
    hx
    ∙ ap (λ l. l ++ w) hs
    ∙ append_assoc front o w
    ∙ ap (λ l. front ++ (l ++ w)) ho
    ∙ ap (λ l. front ++ (o' ++ l)) hw

pub polls_promised :
    {S : Type 0} (ops : ProxyOps S) (styled : Json → Text) (k : EventKind) (p : EvPara)
    (report : Event → List ℕ → Reach S → Reach S) (out : Bool → MachineContex → List ℕ → List Text)
    (Like : MachineContex → MachineContex → Type 0)
    → IsReporter p report out Like
    → ((n : ℕ) (r : Reach S)
        → sniffing_plc_event ops styled (event_at k p n, r)
          ≡ sniff_frame ops report (event_at k p n, r))
    → (m n : ℕ) (swap : Bool) (c : MachineContex) (r : Reach S) → Like c r.contex
    → c.word_swap ≡ swap
    → (poll ops styled m (event_at k p n, r)).1.sent
      ≡ r.sent ++ promised (out r.client c) swap n (frames ops styled m (event_at k p n, r))
unfolding send_eap_data
polls_promised ops styled k p report out Like i same zero n swap c r h e =
    poll_none ops styled (event_at k p n, r) (out r.client c) swap n
polls_promised ops styled k p report out Like i same (suc m) n swap c r h e =
    let rest = polls_promised ops styled k p report out Like i same m in
    let res = read_proxy ops p r.proxy in
    let s : Event × Reach _ = (event_at k p n, r) in
    let r' = read_reach ops p r in
    let buf = res.1 in
    let sw = i.same_swap c r.contex h ∙ e in
    let o = out r.client c in
    elim (Bool-cases (int_eq res.0 (pos 0))) [
      | inr z ↦
          poll_step ops styled m s (event_at k p n, r') [] o swap n
            (same n r ∙ sniff_error ops report k p n r z) (rw z refl) (rest n swap c r' h e)
      | inl z ↦ elim (Bool-cases (n == sequence_of r.contex.word_swap buf)) [
        | inl y ↦
            poll_step ops styled m s (event_at k p n, r') (buf ∷ []) o swap n
              (same n r ∙ sniff_known ops report k p n r z y) (rw z refl)
              (rest n swap c r' h e
                ∙ ap (λ x. r.sent ++ x)
                    (sym (promised_known o swap n buf _ (seq_cases n _ swap buf true sw y))))
        | inr y ↦
            let q = sequence_of r.contex.word_swap buf in
            let t = reported ops report k p n r in
            let fs = frames ops styled m (event_at k p q, t) in
            poll_step ops styled m s (event_at k p q, t) (buf ∷ []) o swap n
              (same n r ∙ sniff_new ops report k p n r z y) (rw z refl)
              (join r.sent t.sent (out r.client r.contex buf) (o buf) _ _ (i.sends k n buf r')
                  (i.same_out r.client c r.contex buf h)
                  (rest q swap c t (i.keeps_contex k n buf c r' h) e)
                  (ap (λ b. promised (out b c) swap q fs) (i.keeps_client k n buf r')
                    ∙ ap (λ x. promised o swap (sequence_of x buf) fs) sw)
                ∙ ap (λ x. r.sent ++ x)
                    (sym (promised_new o swap n buf fs (seq_cases n _ swap buf false sw y))))
      ]
    ]
