-- ===== src/Command/Tests.antt =====
-- Commands through DownInfo, and its theorems at concrete inputs. The JSON library is stood for by
-- functions that write and read just the objects of commands.
use dev_hub.Base.{
  ℕ, zero, suc, ◌≡◌, ◌-◌, refl, inl, inr, true, false, Option, none, some, [], ◌∷◌, if◌then◌else◌,
  ◌==◌, Text, codes, text_eq, ℤ, pos, negsuc, Json, num, str, arr, obj, cons, Fields, field, arith,
}
use dev_hub.Base.{end}
use dev_hub.Command.Manager.{Manager}
use dev_hub.Looper.{new_looper}
use dev_hub.Reply.{split}
use dev_hub.Task.{task_idle, format_json, format_common, Task, World}
use dev_hub.Command.{Peripheral, balance, Transcation, Devices, check, find_field}
use dev_hub.Command.Process.{WritesObjects, Settles}
use dev_hub.Command.Down.{down_value, down_info}
use dev_hub.Command.Down.Objects.{down_info-Settles}
use dev_hub.Command.Down.Commas.{command_fields, object_for, down_info_csv}

abbrev tag : Option ℤ → ℕ
tag none = zero
tag (some (pos n)) = suc zero
tag (some (negsuc n)) = suc (suc zero)

abbrev size : Option ℤ → ℕ
size none = zero
size (some (pos n)) = n
size (some (negsuc n)) = n

abbrev number : ℕ → ℕ → Option ℤ
number zero n = none
number (suc zero) n = some (pos n)
number (suc (suc t)) n = some (negsuc n)

abbrev param_in : Fields → Option ℤ
param_in (field k (arr (cons (num n) items)) fs) = some n
param_in _ = none

abbrev equip_in : Fields → Option ℤ
equip_in (field k (num n) fs) = some n
equip_in _ = none

abbrev after_equip : Fields → Fields
after_equip (field k (num n) fs) = fs
after_equip fs = fs

abbrev body : Fields → Text
body (field k (num (pos q)) (field k' (str cmd) fs)) =
    let equip = equip_in fs in
    let param = param_in (after_equip fs) in
    q ∷ tag equip ∷ size equip ∷ tag param ∷ size param ∷ cmd
body _ = []

abbrev written : Json → Text
written (obj fs) = 123 ∷ body fs
written _ = []

abbrev reading : Text → Option Json
reading (c ∷ q ∷ te ∷ e ∷ tp ∷ p ∷ cmd) =
    if c == 123 then some (obj (command_fields q cmd (number tp p) (number te e))) else none
reading _ = none

abbrev reading_back :
    (q : ℕ) (cmd : Text) (param equip : Option ℤ)
    → reading (written (obj (command_fields q cmd param equip)))
      ≡ some (obj (command_fields q cmd param equip))
reading_back q cmd none none = refl
reading_back q cmd none (some (pos n)) = refl
reading_back q cmd none (some (negsuc n)) = refl
reading_back q cmd (some (pos n)) none = refl
reading_back q cmd (some (pos n)) (some (pos m)) = refl
reading_back q cmd (some (pos n)) (some (negsuc m)) = refl
reading_back q cmd (some (negsuc n)) none = refl
reading_back q cmd (some (negsuc n)) (some (pos m)) = refl
reading_back q cmd (some (negsuc n)) (some (negsuc m)) = refl

written-WritesObjects : WritesObjects written
written-WritesObjects fs h = ground arith

-- One digit.
abbrev stoi : Text → Option ℤ
stoi (c ∷ []) = some (pos (c - 48))
stoi _ = none

abbrev scale : Peripheral
scale = record { equipment_name = codes "scale"; equipment_no = pos 1; id = 9; fd = pos 4 }

abbrev scales : Transcation
scales = record {
  id = 2;
  kind = balance;
  name = codes "scale";
  command_names = codes "BalanceQp" ∷ codes "BalanceCl" ∷ [];
  ip_white_list = [];
  peripherals = scale ∷ [];
}

abbrev session : Task
session = record {
  status = task_idle;
  format = format_json;
  machine_id = [];
  station_id = [];
  slot_id = [];
  rept_status = (2, false) ∷ [];
  cmd_name = [];
  req_id = pos 0;
  response_timeout = none;
  sink = 1;
}

abbrev world : World Devices
world = record {
  looper = new_looper;
  made = true;
  added = true;
  sent = [];
  balance_timer = none;
  devices = [];
}

abbrev weigh : Text
weigh = 123 ∷ 7 ∷ 0 ∷ 0 ∷ 1 ∷ 1 ∷ codes "BalanceCl"

down_info-Settles_example :
    Settles (session, world) (down_info reading written stoi scales weigh (session, world))
unfolding find_field text_eq check
down_info-Settles_example =
    down_info-Settles reading written stoi written-WritesObjects scales weigh (codes "BalanceCl")
      (pos 7) (command_fields 7 (codes "BalanceCl") (some (pos 1)) none) session world refl refl
      refl refl (inr refl) (pos 1, refl)

down_info_csv_example :
    down_info reading written stoi scales (codes "M,S,1,BalanceQp,7") (session, world)
    ≡ down_value reading written stoi scales (obj (object_for 7 (codes "BalanceQp") 1)) (
      record session {
        machine_id = codes "M";
        station_id = codes "S";
        slot_id = codes "1";
        format = format_common;
      },
      world,
    )
unfolding split
down_info_csv_example =
    down_info_csv reading written stoi scales (codes "M,S,1,BalanceQp,7") (codes "M") (codes "S")
      (codes "1") (codes "BalanceQp") (codes "7") 1 7 session world refl
      (reading_back 7 (codes "BalanceQp")) refl refl (omega arith) (inl refl) refl

abbrev one_known : Manager
one_known = record { transcations = (2, scales) ∷ []; tasks = (2, 5) ∷ [] }

abbrev measured : Text
measured = codes "{\"Press\":123,\"time\":56789}"

abbrev reading_measured : Text → Option Json
reading_measured t =
    if text_eq t measured
    then some
        (obj (field (codes "Press") (num (pos 123)) (field (codes "time") (num (pos 56789)) end)))
    else none

abbrev at_slot : Task
at_slot = record session {
  machine_id = codes "M";
  station_id = codes "S";
  slot_id = codes "1";
  format = format_common;
}

abbrev pressed : Fields
pressed = field (codes "Press") (num (pos 123)) (field (codes "time") (num (pos 56789)) end)
