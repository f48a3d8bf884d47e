-- ===== src/Events/Sniff.antt =====
-- SniffingPlcEvent of the events of transcation/ev_respond.cpp.
use dev_hub.Base.{
  ℕ, zero, suc, ◌+◌, ◌*◌, ◌/◌, ◌%◌, ◌^◌, Bool, not, Option, none, some, List, [], ◌∷◌, ◌++◌,
  if◌then◌else◌, ◌==◌, Text, codes, pos, int_eq, Json, null, bool, num, str, arr, obj, Items, nil,
  cons, Fields, end, field, lookup, insert,
}
use dev_hub.Endian.{bl_endian_ushort}
use dev_hub.Events.{
  ProxyOps, PlcAlarmInfo, Event, Reach, word, pass_frame, update_event, read_data, send_eap_data,
  ev_register, ev_heare_beat, ev_eap_command, ev_event_changed_flag, ev_notice_message,
  ev_alarm_code, ev_machine_status, ev_machine_yield, ev_break_point, ev_check_in, ev_post_result,
}

abbrev pub AlarmMap : Type 0
AlarmMap = List (ℕ × Option PlcAlarmInfo)

-- `alarm_info`.
abbrev pub alarm_info : PlcAlarmInfo → Json
alarm_info a = obj (
    field (codes "Name") (str a.name)
      (field (codes "Status") (bool a.status) (field (codes "Level") (str a.level) end)))

-- `word & (0x0001 << j)`.
abbrev pub bit_set : ℕ → ℕ → Bool
bit_set w j = (w / 2 ^ j) % 2 == 1

-- A bit that is set: `PlcAlarmCodeList[offset]` enters NULL for a new offset, and an enabled alarm
-- is appended to the list.
abbrev pub on_alarm : Option (Option PlcAlarmInfo) → ℕ → AlarmMap × List Json → AlarmMap × List Json
on_alarm none offset (m, alarms) = (insert offset none m, alarms)
on_alarm (some none) offset (m, alarms) = (m, alarms)
on_alarm (some (some a)) offset (m, alarms) =
    (m, if a.enable then alarms ++ (alarm_info a ∷ []) else alarms)

unfoldable pub on_bit : ℕ → AlarmMap × List Json → AlarmMap × List Json
on_bit offset (m, alarms) = on_alarm (lookup offset m) offset (m, alarms)

-- The inner loop: `n` bits from bit `j` on.
unfoldable pub bit_loop : ℕ → ℕ → ℕ → ℕ → AlarmMap × List Json → AlarmMap × List Json
bit_loop zero i j w s = s
bit_loop (suc n) i j w s = bit_loop n i (suc j) w (if bit_set w j then on_bit (i * 16 + j) s else s)

-- The outer loop, over the words from word `i` on.
unfoldable pub word_loop : List ℕ → ℕ → AlarmMap × List Json → AlarmMap × List Json
unfolding bit_loop
word_loop [] i s = s
word_loop (w ∷ ws) i s = word_loop ws (suc i) (bit_loop 16 i 0 w s)

-- `n` words of `Content` from word `i` of the frame on.
unfoldable pub content : ℕ → ℕ → Bool → List ℕ → List ℕ
content zero i swap buf = []
content (suc n) i swap buf = bl_endian_ushort (word i buf) swap ∷ content n (suc i) swap buf

abbrev pub items_of : List Json → Items
items_of [] = nil
items_of (v ∷ vs) = cons v (items_of vs)

abbrev pub one : Json → Json
one v = arr (cons v nil)

-- `root` with its one section, its one machine and the event.
abbrev pub root_of : Text → Text → Json → Json
root_of section_name machine_name event = obj (
    field (codes "SectionList")
      (one (
        obj (
          field (codes "Name") (str section_name) (
            field (codes "MachineList")
              (one (
                obj (
                  field (codes "Name") (str machine_name)
                    (field (codes "EventList") (one event) end))))
              end))))
      end)

abbrev pub event_of : Event → Fields → Json
event_of e more = obj (
    field (codes "Name") (str e.para.event_name)
      (field (codes "Action") (str e.para.event_action) more))

-- `m_sequenceID != …`: the sequence number of the frame.
abbrev pub sequence_of : Bool → List ℕ → ℕ
sequence_of swap buf = bl_endian_ushort (word 0 buf) swap

module _ {S : Type 0} (styled : Json → Text) where
  -- `isHaveAlarm` is set where an alarm is appended.
  unfoldable pub report_list : Event → List Json → Reach S → Reach S
  unfolding update_event
  report_list e [] r = r
  report_list e (a ∷ more) r =
      let event = event_of e (field (codes "AlarmList") (arr (items_of (a ∷ more))) end) in
      update_event (styled (root_of r.contex.section_name r.contex.machine_name event)) r

  -- The alarms of a new frame, and the report if there is one.
  unfoldable pub report_alarms : Event → List ℕ → Reach S → Reach S
  unfolding word_loop content report_list
  report_alarms e buf r =
      let (m, alarms) =
        word_loop (content 20 2 r.contex.word_swap buf) 0 (r.contex.plc_alarm_code_list, []) in
      report_list e alarms (record r { contex = record r.contex { plc_alarm_code_list = m } })

  -- The report of a machine's state.
  unfoldable pub report_status : Event → List ℕ → Reach S → Reach S
  unfolding update_event
  report_status e buf r =
      let code = bl_endian_ushort (word 2 buf) r.contex.word_swap in
      let event = event_of e (field (codes "MachineStateCode") (num (pos code)) end) in
      update_event (styled (root_of r.contex.section_name r.contex.machine_name event)) r

  -- MachineYield fills `event`, but `root`, which is sent, stays null.
  unfoldable pub report_yield : Event → List ℕ → Reach S → Reach S
  unfolding update_event
  report_yield e buf r = update_event (styled null) r

module _ {S : Type 0} (ops : ProxyOps S) where
  -- The common course: read, stop on an error or a known sequence number, report, answer.
  unfoldable pub sniff_frame :
      (Event → List ℕ → Reach S → Reach S) → Event × Reach S → Event × Reach S
  unfolding read_data send_eap_data
  sniff_frame report (e, r) =
      let (ret, buf, r') = read_data ops e r in
      let n = sequence_of r'.contex.word_swap buf in
      if not (int_eq ret (pos 0))
      then (e, r')
      else if e.sequence_id == n
      then (e, r')
      else (record e { sequence_id = n }, send_eap_data ops e (pass_frame n) (report e buf r'))

  -- Ev_HeareBeat::SniffingPlcEvent reads and does nothing with the frame.
  unfoldable pub sniff_heart_beat : Event × Reach S → Event × Reach S
  unfolding read_data
  sniff_heart_beat (e, r) = let (ret, buf, r') = read_data ops e r in (e, r')

  -- SniffingPlcEvent of each subclass.
  unfoldable pub sniffing_plc_event : (Json → Text) → Event × Reach S → Event × Reach S
  unfolding sniff_frame sniff_heart_beat
  sniffing_plc_event styled (e, r) = elim e.kind [
    | ev_alarm_code ↦ sniff_frame (report_alarms styled) (e, r)
    | ev_machine_status ↦ sniff_frame (report_status styled) (e, r)
    | ev_machine_yield ↦ sniff_frame (report_yield styled) (e, r)
    | ev_heare_beat ↦ sniff_heart_beat (e, r)
    | ev_register ↦ (e, r)
    | ev_eap_command ↦ (e, r)
    | ev_event_changed_flag ↦ (e, r)
    | ev_notice_message ↦ (e, r)
    | ev_break_point ↦ (e, r)
    | ev_check_in ↦ (e, r)
    | ev_post_result ↦ (e, r)
  ]
