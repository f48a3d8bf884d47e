-- ===== src/Events/Reports.antt =====
-- What the machine status and the alarm events of transcation/ev_respond.cpp report over many polls.
use dev_hub.Base.{
  ℕ, Bool, true, false, List, [], ◌∷◌, ◌++◌, if◌then◌else◌, Text, codes, pos, Json, num, arr, field,
  end, ◌≡◌, refl, sym, ap, ◌∙◌, ◌*◌, ◌-◌, ◌/◌, ◌%◌, get_or, length,
}
use mathlib.Core.Path.{subst}
use mathlib.Core.List.{append-nil}
use dev_hub.Endian.{bl_endian_ushort}
use dev_hub.Events.{
  ProxyOps, MachineContex, EvPara, Event, EventKind, ev_alarm_code, ev_machine_status, Reach, word,
  update_event,
}
use dev_hub.Events.Sniff.{
  AlarmMap, root_of, event_of, items_of, content, report_list, report_alarms, report_status,
  bit_set, sniffing_plc_event,
}
use dev_hub.Events.Alarms.{alarms_of, alarm_at, listed, collect-eq, word_loop-alarms}
use dev_hub.Events.Polls.{event_at, promised, poll, frames, IsReporter, polls_promised}

-- Nothing is sent without a client.
abbrev pub when_client : Bool → Text → List Text
when_client true msg = msg ∷ []
when_client false msg = []

update_event-sent :
    (b : Bool) (front : List Text) (msg : Text)
    → (if b then front ++ (msg ∷ []) else front) ≡ front ++ when_client b msg
update_event-sent true front msg = refl
update_event-sent false front msg = sym (append-nil front)

-- The report of a state code.
abbrev pub status_report : (Json → Text) → EvPara → Text → Text → ℕ → Text
status_report styled p section machine code = styled (
    root_of section machine (
      event_of (event_at ev_machine_status p 0)
        (field (codes "MachineStateCode") (num (pos code)) end)))

abbrev pub status_out : (Json → Text) → EvPara → Bool → MachineContex → List ℕ → List Text
status_out styled p b c buf = when_client b (
    status_report styled p c.section_name c.machine_name
      (bl_endian_ushort (word 2 buf) c.word_swap))

-- The report of a list of alarms, if there are any.
abbrev pub alarm_report : (Json → Text) → EvPara → Bool → Text → Text → List Json → List Text
alarm_report styled p b section machine [] = []
alarm_report styled p b section machine (a ∷ more) = when_client b (
    styled (
      root_of section machine (
        event_of (event_at ev_alarm_code p 0)
          (field (codes "AlarmList") (arr (items_of (a ∷ more))) end))))

abbrev pub alarm_out : (Json → Text) → EvPara → Bool → MachineContex → List ℕ → List Text
alarm_out styled p b c buf =
    alarm_report styled p b c.section_name c.machine_name
      (alarms_of c.plc_alarm_code_list (content 20 2 c.word_swap buf))

status-IsReporter :
    {S : Type 0} (styled : Json → Text) (p : EvPara)
    → IsReporter {S = S} p (report_status styled) (status_out styled p) (λ c d. c ≡ d)
unfolding report_status update_event
status-IsReporter styled p = record {
  sends = λ k n buf r. update_event-sent r.client r.sent _;
  keeps_client = λ k n buf r. refl;
  keeps_contex = λ k n buf c r h. h;
  same_swap = λ c d h. ap (λ x. x.word_swap) (sym h);
  same_out = λ b c d buf h. ap (λ x. status_out styled p b x buf) (sym h);
}

-- Two contexes that an alarm event reports alike.
abbrev IsAlike : MachineContex → MachineContex → Type 0
IsAlike c d =
    (d.section_name ≡ c.section_name)
    × (d.machine_name ≡ c.machine_name)
    × (d.word_swap ≡ c.word_swap)
    × ((k : ℕ) → alarm_at d.plc_alarm_code_list k ≡ alarm_at c.plc_alarm_code_list k)

alarms_of-eq :
    (m m' : AlarmMap) (ws : List ℕ)
    → ((k : ℕ) → alarm_at m' k ≡ alarm_at m k)
    → alarms_of m' ws ≡ alarms_of m ws
alarms_of-eq m m' ws h =
    collect-eq (listed m' ws 0) (listed m ws 0) 0 (16 * length ws)
      (λ k a b. ap (λ l. if bit_set (get_or ws (k / 16 - 0) 0) (k % 16) then l else []) (h k))

report_list-sent :
    {S : Type 0} (styled : Json → Text) (k : EventKind) (p : EvPara) (n : ℕ) (alarms : List Json)
    (r : Reach S)
    → (report_list styled (event_at k p n) alarms r).sent
      ≡ r.sent ++ alarm_report styled p r.client r.contex.section_name r.contex.machine_name alarms
unfolding report_list update_event
report_list-sent styled k p n [] r = sym (append-nil r.sent)
report_list-sent styled k p n (a ∷ more) r = update_event-sent r.client r.sent _

report_list-client :
    {S : Type 0} (styled : Json → Text) (e : Event) (alarms : List Json) (r : Reach S)
    → (report_list styled e alarms r).client ≡ r.client
unfolding report_list update_event
report_list-client styled e [] r = refl
report_list-client styled e (a ∷ more) r = refl

report_list-contex :
    {S : Type 0} (styled : Json → Text) (e : Event) (alarms : List Json) (r : Reach S)
    → (report_list styled e alarms r).contex ≡ r.contex
unfolding report_list update_event
report_list-contex styled e [] r = refl
report_list-contex styled e (a ∷ more) r = refl

alarms-IsReporter :
    {S : Type 0} (styled : Json → Text) (p : EvPara)
    → IsReporter {S = S} p (report_alarms styled) (alarm_out styled p) IsAlike
unfolding report_alarms
alarms-IsReporter styled p = record {
  sends = λ k n buf r.
      report_list-sent styled k p n _ _
      ∙ ap
          (λ l.
            r.sent ++ alarm_report styled p r.client r.contex.section_name r.contex.machine_name l)
          (word_loop-alarms (content 20 2 r.contex.word_swap buf) r.contex.plc_alarm_code_list).0;
  keeps_client = λ k n buf r. report_list-client styled (event_at k p n) _ _;
  keeps_contex = λ k n buf c r h.
      subst (IsAlike c) (sym (report_list-contex styled (event_at k p n) _ _)) (
        h.0,
        h.1,
        h.2,
        λ j.
            (word_loop-alarms (content 20 2 r.contex.word_swap buf) r.contex.plc_alarm_code_list).1
              j
            ∙ h.3 j,
      );
  same_swap = λ c d h. h.2;
  same_out = λ b c d buf h.
      ap
        (λ x.
          alarm_report styled p b x d.machine_name
            (alarms_of d.plc_alarm_code_list (content 20 2 d.word_swap buf)))
        h.0
      ∙ ap
          (λ x.
            alarm_report styled p b c.section_name x
              (alarms_of d.plc_alarm_code_list (content 20 2 d.word_swap buf)))
          h.1
      ∙ ap
          (λ x.
            alarm_report styled p b c.section_name c.machine_name
              (alarms_of d.plc_alarm_code_list (content 20 2 x buf)))
          h.2
      ∙ ap (alarm_report styled p b c.section_name c.machine_name) (
          alarms_of-eq c.plc_alarm_code_list d.plc_alarm_code_list (content 20 2 c.word_swap buf)
            h.3);
}

-- Over any number of polls a machine status event reports the state code of each frame that it
-- reads whose sequence number is not that of the frame before it, in order, and nothing else; the
-- first frame is compared with the event's own number. Without a client nothing is sent.
pub status_polls :
    {S : Type 0} (ops : ProxyOps S) (styled : Json → Text) (p : EvPara) (m n : ℕ) (r : Reach S)
    → (poll ops styled m (event_at ev_machine_status p n, r)).1.sent
      ≡ r.sent
        ++ promised
            (status_out styled p r.client r.contex)
            r.contex.word_swap
            n
            (frames ops styled m (event_at ev_machine_status p n, r))
unfolding sniffing_plc_event
status_polls ops styled p m n r =
    polls_promised ops styled ev_machine_status p (report_status styled) (status_out styled p)
      (λ c d. c ≡ d) (status-IsReporter styled p) (λ k s. refl) m n r.contex.word_swap r.contex r
      refl refl

-- Over any number of polls an alarm event reports, for each frame that it reads whose sequence
-- number is not that of the frame before it, the alarms that were in the map at the start,
-- are enabled, and whose bit the frame sets, in the order of their offsets, in one message if there
-- are any, and nothing else. Without a client nothing is sent.
pub alarm_polls :
    {S : Type 0} (ops : ProxyOps S) (styled : Json → Text) (p : EvPara) (m n : ℕ) (r : Reach S)
    → (poll ops styled m (event_at ev_alarm_code p n, r)).1.sent
      ≡ r.sent
        ++ promised
            (alarm_out styled p r.client r.contex)
            r.contex.word_swap
            n
            (frames ops styled m (event_at ev_alarm_code p n, r))
unfolding sniffing_plc_event
alarm_polls ops styled p m n r =
    polls_promised ops styled ev_alarm_code p (report_alarms styled) (alarm_out styled p) IsAlike
      (alarms-IsReporter styled p) (λ k s. refl) m n r.contex.word_swap r.contex r
      (refl, refl, refl, λ k. refl) refl
