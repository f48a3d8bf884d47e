-- ===== src/Events/Tests.antt =====
-- Runs of the events, and their theorems at concrete inputs.
use dev_hub.Base.{ℕ, true, false, some, List, [], ◌∷◌, ◌++◌, Text, codes, ◌≡◌, refl, pos, Json, ℤ}
use dev_hub.Plc.{connect_ok, minus_one}
use dev_hub.Plc.Proxy.{pro_fins}
use dev_hub.Events
use dev_hub.Events.{
  ProxyOps, PlcAlarmInfo, MachineContex, EvPara, ev_alarm_code, ev_machine_status, ev_machine_yield,
  Reach, Event,
}
use dev_hub.Events.Sniff.{alarm_info, word_loop, content, sniffing_plc_event}
use dev_hub.Events.Polls.{event_at, promised, poll, frames}
use dev_hub.Events.Reports.{status_out, alarm_out, status_polls, alarm_polls}

-- A proxy that reads a list of frames, an empty one being an error, and forgets what is written.
abbrev pop : List (List ℕ) → ℤ × List ℕ × List (List ℕ)
pop [] = (minus_one, [], [])
pop ([] ∷ fs) = (minus_one, [], fs)
pop ((b ∷ bs) ∷ fs) = (pos 0, b ∷ bs, fs)

abbrev script : ProxyOps (List (List ℕ))
script = record {
  status = λ s. connect_ok;
  protocol = λ s. pro_fins;
  read_worlds = λ addr len s. pop s;
  write_worlds = λ addr bytes len s. s;
}

abbrev plain : Json → Text
plain v = codes "report"

abbrev para : EvPara
para = record {
  event_name = codes "Status";
  event_action = codes "MachineStatus";
  plc_event_addr = codes "100";
  plc_data_size = 6;
  eap_event_addr = codes "200";
  eap_data_size = 3;
  flag = codes "DM";
}

abbrev door : PlcAlarmInfo
door = record {
  name = codes "door";
  enable = true;
  status = true;
  level = codes "1";
  word_offset = 0;
  bit_offset = 1;
}

abbrev muted : PlcAlarmInfo
muted = record door { enable = false }

abbrev contex : MachineContex
contex = record {
  section_name = codes "s";
  machine_name = codes "m";
  read_skip_zero = false;
  word_swap = false;
  int_swap = false;
  long_swap = false;
  plc_alarm_code_list = (0, some muted) ∷ (1, some door) ∷ [];
}

abbrev reach : Reach (List (List ℕ))
reach = record {
  proxy = (1 ∷ 0 ∷ 0 ∷ 0 ∷ 3 ∷ []) ∷ [] ∷ (1 ∷ 0 ∷ 0 ∷ 0 ∷ 3 ∷ []) ∷ (2 ∷ 0 ∷ 0 ∷ 0 ∷ 1 ∷ []) ∷ [];
  contex = contex;
  client = true;
  sent = [];
}

-- Of three frames the second repeats the first: two reports of the state.
two_reports :
    (poll script plain 4 (event_at ev_machine_status para 65535, reach)).1.sent
    ≡ codes "report" ∷ codes "report" ∷ []
unfolding poll sniffing_plc_event Events.Sniff.sniff_frame Events.read_data Events.read_proxy
    Events.send_eap_data Events.write_proxy Events.update_event Events.Sniff.report_status
    dev_hub.Endian.bl_endian_ushort
two_reports = refl

status_polls_example :
    (poll script plain 4 (event_at ev_machine_status para 65535, reach)).1.sent
    ≡ reach.sent
      ++ promised
          (status_out plain para reach.client reach.contex)
          reach.contex.word_swap
          65535
          (frames script plain 4 (event_at ev_machine_status para 65535, reach))
status_polls_example = status_polls script plain para 4 65535 reach

alarm_polls_example :
    (poll script plain 4 (event_at ev_alarm_code para 65535, reach)).1.sent
    ≡ reach.sent
      ++ promised
          (alarm_out plain para reach.client reach.contex)
          reach.contex.word_swap
          65535
          (frames script plain 4 (event_at ev_alarm_code para 65535, reach))
alarm_polls_example = alarm_polls script plain para 4 65535 reach
