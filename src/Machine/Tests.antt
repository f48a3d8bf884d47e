-- ===== src/Machine/Tests.antt =====
-- Runs of the machines, and their theorems at concrete inputs.
use dev_hub.Base.{
  ℕ, true, false, Option, none, some, List, [], ◌∷◌, ◌++◌, All, Text, codes, text_eq, ◌≡◌, ◌≢◌,
  refl, arith, inl, inr, pos, Json, null, str, num, arr, obj, cons, nil, field, end, ℤ, negsuc,
  lookup, find_key, assign_key,
}
use dev_hub.Plc.{connect_ok, minus_one}
use dev_hub.Plc.Proxy.{pro_fins, get_plc_proxy}
use dev_hub.Events.{ProxyOps, PlcAlarmInfo, EvPara, ev_heare_beat}
use dev_hub.Machine
use dev_hub.Machine.{Machine, on_timer}
use dev_hub.Machine.Polling.{IsPollableAfter, ticks, heart_beat_breaks_polling}
use dev_hub.Machine.Split.{split_string, join, split_string-join}
use dev_hub.Machine.Build.{add_alarms, LineMachine, Wiring, build_event, event_kind}
use dev_hub.Machine.Director.{
  LineSection, Machines, construct_machine, flash_sections, write_machine_data, no_name, on_frame,
}
use dev_hub.Machine.Director.Addressed.{constructed-IsPollable, write_machine_data_unaddressed}

-- A proxy that is connected and reads nothing but errors.
abbrev silent : ProxyOps ℕ
silent = record {
  status = λ s. connect_ok;
  protocol = λ s. pro_fins;
  read_worlds = λ addr len s. (minus_one, [], s);
  write_worlds = λ addr bytes len s. s;
}

abbrev plain : Json → Text
plain v = codes "json"

abbrev beat_para : EvPara
beat_para = record {
  event_name = codes "HeartBeat";
  event_action = codes "HeartBeat";
  plc_event_addr = codes "100";
  plc_data_size = 12;
  eap_event_addr = codes "200";
  eap_data_size = 6;
  flag = codes "DM";
}

abbrev status_para : EvPara
status_para = record beat_para { event_name = codes "S"; event_action = codes "MachineStatus" }

abbrev door : PlcAlarmInfo
door = record {
  name = codes "door";
  enable = true;
  status = true;
  level = codes "1";
  word_offset = 1;
  bit_offset = 2;
}

abbrev line_machine : LineMachine
line_machine = record {
  name = codes "m";
  enable = true;
  device_type = codes "PLC";
  protocol = codes "Fins";
  data_format = codes "WordSwap IntSwap";
  alarm_code_list = door ∷ [];
  main_events = status_para ∷ beat_para ∷ [];
  stations = [];
}

abbrev wiring : Wiring ℕ
wiring = record { link = λ p lm. 0; ids = λ s lm. (1, 2); client = true }

fins : get_plc_proxy line_machine.protocol ≡ some pro_fins
unfolding text_eq
fins = refl

abbrev idle_machine : Machine ℕ
idle_machine = record {
  name = [];
  main_events = [];
  stations_events = [];
  value_polling = 1;
  heartbeat = 2;
  reach = record {
    proxy = 0;
    contex = record {
      section_name = codes "s";
      machine_name = codes "m";
      read_skip_zero = false;
      word_swap = false;
      int_swap = false;
      long_swap = false;
      plc_alarm_code_list = [];
    };
    client = true;
    sent = [];
  };
}

abbrev beating : Machine ℕ
beating = record idle_machine {
  main_events =
      (
        codes "HeartBeat",
        some (record { kind = ev_heare_beat; para = beat_para; sequence_id = 65535 }),
      )
      ∷ [];
}

heart_beat_breaks_polling_example :
    (m' : Machine ℕ) × (on_timer silent plain idle_machine.heartbeat 5 idle_machine ≡ some m')
    × (on_timer silent plain idle_machine.value_polling 6 m' ≡ none)
heart_beat_breaks_polling_example =
    heart_beat_breaks_polling silent plain 5 6 idle_machine refl (ground arith)

split_string-join_example :
    split_string (join 32 (codes "WordSwap" ∷ [] ∷ codes "IntSwap" ∷ [])) (32 ∷ [])
    ≡ codes "WordSwap" ∷ [] ∷ codes "IntSwap" ∷ []
split_string-join_example =
    split_string-join 32 (codes "WordSwap" ∷ [] ∷ codes "IntSwap" ∷ []) (ground arith)
      (ground arith)

constructed-IsPollable_example :
    (m : Machine ℕ) × (construct_machine wiring (codes "s") line_machine []
      ≡ some (assign_key (codes "s" ++ m.name) (some m) []))
    × IsPollableAfter silent plain (ticks silent plain ((2, 5) ∷ (1, 6) ∷ []) m)
unfolding build_event event_kind text_eq
constructed-IsPollable_example =
    constructed-IsPollable silent plain ((2, 5) ∷ (1, 6) ∷ []) wiring (codes "s") line_machine []
      pro_fins fins (inr (inl (refl, tt)))

abbrev sections : List LineSection
sections = record { name = codes "s"; machines = line_machine ∷ [] } ∷ []

abbrev flashed : Machines ℕ
flashed = elim (flash_sections wiring sections []) [ none ↦ [] | some ms ↦ ms ]

flashed_all : flash_sections wiring sections [] ≡ some flashed
unfolding text_eq flash_sections Machine.Director.flash_machines construct_machine
    Machine.Build.build_machine
flashed_all = refl

write_machine_data_unaddressed_example :
    (ms' : Machines ℕ) × (write_machine_data (codes "s") (codes "m") (codes "HeartBeat") flashed
      ≡ some (some no_name, ms'))
unfolding text_eq
write_machine_data_unaddressed_example =
    write_machine_data_unaddressed wiring sections flashed (codes "s") (codes "m")
      (codes "HeartBeat") flashed_all (refl, tt)

-- A frame for the machine "m" of the section "s" reaches no machine, and enters NULL.
abbrev frame_value : Json
frame_value = obj (
    field (codes "SequenceID") (num (pos 1)) (
      field (codes "SectionList")
        (arr (
          cons
            (obj (
              field (codes "Name") (str (codes "s")) (
                field (codes "MachineList")
                  (arr (cons (obj (field (codes "Name") (str (codes "m")) end)) nil))
                  (field (codes "EventList")
                    (arr (cons (obj (field (codes "Name") (str (codes "E")) end)) nil)) end))))
            nil))
        end))

frame_lost :
    on_frame (λ text. some frame_value) [] ((codes "s", some idle_machine) ∷ [])
    ≡ some (none, (codes "s", some idle_machine) ∷ (codes "sm", none) ∷ [])
unfolding on_frame dev_hub.Command.member dev_hub.Command.find_field text_eq dev_hub.Base.text_ltb
frame_lost = refl
