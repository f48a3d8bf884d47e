-- ===== src/Command/Down.antt =====
-- Transcation::DownInfo of transcation/Transcation.cpp: JSON frames, and frames of items between
-- commas.
pub mod Objects
pub mod Commas
use dev_hub.Base.{
  ℕ, ◌+◌, ◌≡◌, ◌≤◌, ◌⊎◌, refl, inl, inr, Bool, true, false, ◌||◌, Option, none, some, List, [], ◌∷◌,
  if◌then◌else◌, ltb, ◌==◌, Text, codes, text_eq, ℤ, pos, negsuc, Json, null, bool, num, str, arr,
  obj, nil, cons, Fields, end, field, arith,
}
use dev_hub.Reply.{split}
use dev_hub.Task.{
  task_accept, format_json, format_common, Task, World, nothing_to_do, start_response_timer, update,
}
use dev_hub.Command.{
  Transcation, check, find_field, member, int_value, Request, Devices, set_status, process_cmd,
}

-- The variables of the loop over the items: the first three items, and the members of `root`.
pub record Csv : Type 0 where
  pub machine_id : Text
  pub station_id : Text
  pub slot_id : Text
  pub param : Option ℤ
  pub equip_num : Option ℤ
  pub cmd : Option Text
  pub req_id : Option ℤ

abbrev pub no_items : Csv
no_items = record {
  machine_id = [];
  station_id = [];
  slot_id = [];
  param = none;
  equip_num = none;
  cmd = none;
  req_id = none;
}

-- `root`, whose members the library keeps in the order of their names.
abbrev pub number_field : Text → Option ℤ → Fields → Fields
number_field key none fs = fs
number_field key (some n) fs = field key (num n) fs

abbrev pub text_field : Text → Option Text → Fields → Fields
text_field key none fs = fs
text_field key (some t) fs = field key (str t) fs

abbrev pub array_field : Text → Option ℤ → Fields → Fields
array_field key none fs = fs
array_field key (some n) fs = field key (arr (cons (num n) nil)) fs

abbrev pub object_of : Fields → Json
object_of end = null
object_of (field k v fs) = obj (field k v fs)

abbrev pub root_of : Csv → Json
root_of c = object_of (
    number_field (codes "ReqId") c.req_id (
      text_field (codes "cmd") c.cmd
        (number_field (codes "equipNum") c.equip_num (array_field (codes "param") c.param end))))

abbrev pub negative : ℤ → Bool
negative (pos n) = false
negative (negsuc n) = true

abbrev pub out_of_range : ℤ → Bool
out_of_range (pos n) = ltb 6 n
out_of_range (negsuc n) = true

module _ (stoi : Text → Option ℤ) where
  -- The item at index 3: the number of the slot, and the command. The Boolean says whether the
  -- loop goes on; if not, DownInfo returns.
  unfoldable pub command_item : Text → Csv → Option (Bool × Csv)
  command_item item c = elim (stoi c.slot_id) [
    | none ↦ none
    | some n ↦
        if out_of_range n
        then some (false, c)
        else if text_eq item (codes "BalanceQp") || text_eq item (codes "BalanceCl")
        then some (true, record c { param = some n; cmd = some item })
        else if text_eq item (codes "GetSpitParam")
        then some (true, record c { equip_num = some n; cmd = some item })
        else some (false, c)
  ]

  unfoldable pub req_id_item : Text → Csv → Option (Bool × Csv)
  req_id_item item c = elim (stoi item) [
    | none ↦ none
    | some n ↦ if negative n then some (false, c) else some (true, record c { req_id = some n })
  ]

  -- One round: at index 2 SetAuxiliaryParam changes the task.
  unfoldable pub on_item : ℕ → Text → Csv → Task → Option (Bool × Csv × Task)
  unfolding command_item req_id_item
  on_item i item c t =
      if i == 0
      then some (true, record c { machine_id = item }, t)
      else if i == 1
      then some (true, record c { station_id = item }, t)
      else if i == 2
      then some (
        true,
        record c { slot_id = item },
        record t { machine_id = c.machine_id; station_id = c.station_id; slot_id = item },
      )
      else if i == 3
      then elim (command_item item c) [ none ↦ none | some (b, c') ↦ some (b, c', t) ]
      else if i == 4
      then elim (req_id_item item c) [ none ↦ none | some (b, c') ↦ some (b, c', t) ]
      else some (true, c, t)

  unfoldable pub on_items : ℕ → List Text → Csv → Task → Option (Bool × Csv × Task)
  unfolding on_item
  on_items i [] c t = some (true, c, t)
  on_items i (item ∷ items) c t = elim (on_item i item c t) [
    | none ↦ none
    | some (true, c', t') ↦ on_items (i + 1) items c' t'
    | some (false, c', t') ↦ some (false, c', t')
  ]

module _ (parse : Text → Option Json) (styled : Json → Text) (stoi : Text → Option ℤ) where
  -- The last part of DownInfo, for a `value` with a text `cmd` and a number `ReqId`.
  unfoldable pub dispatch :
      Transcation → Request → Task × World Devices → Option (Task × World Devices)
  unfolding check start_response_timer update process_cmd
  dispatch tc r (t, w) =
      if check r.cmd tc.command_names
      then process_cmd styled tc r (set_status styled task_accept (start_response_timer t w))
      else some (update styled nothing_to_do tc.id t w)

  -- The checks of `value`: a text as `cmd` and an integer in the range of `int` as `ReqId`.
  -- Without these DownInfo returns, and nothing is reported.
  unfoldable pub down_value :
      Transcation → Json → Task × World Devices → Option (Task × World Devices)
  unfolding member dispatch
  down_value tc value s = elim (member (codes "cmd") value) [
    | none ↦ none
    | some (str cmd) ↦ elim (member (codes "ReqId") value) [
      | none ↦ none
      | some req_id ↦ elim (int_value req_id) [
        | none ↦ some s
        | some n ↦ elim (member (codes "param") value) [
          | none ↦ none
          | some param ↦ dispatch tc (record { cmd = cmd; req_id = n; param = param }) s
        ]
      ]
    ]
    | some _ ↦ some s
  ]

  -- `parse(strCmd, value)`, whose failure leaves no members.
  abbrev pub reparse : Json → Json
  reparse root = elim (parse (styled root)) [ none ↦ null | some v ↦ v ]

  unfoldable pub down_info :
      Transcation → Text → Task × World Devices → Option (Task × World Devices)
  unfolding on_items down_value
  down_info tc info (t, w) = elim (parse info) [
    | some value ↦ down_value tc value (record t { format = format_json }, w)
    | none ↦ elim (on_items stoi 0 (split info 44) no_items t) [
      | none ↦ none
      | some (false, c, t') ↦ some (t', w)
      | some (true, c, t') ↦
          down_value tc (reparse (root_of c)) (record t' { format = format_common }, w)
    ]
  ]
