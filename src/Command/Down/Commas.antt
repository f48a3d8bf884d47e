-- ===== src/Command/Down/Commas.antt =====
-- Frames of items between commas through DownInfo of transcation/Transcation.cpp.
use dev_hub.Base.{
  ℕ, ◌≡◌, ◌≤◌, ◌⊎◌, refl, ap, ◌∙◌, inl, inr, true, false, Option, none, some, [], ◌∷◌, ltb, Text,
  codes, text_eq, text_eq_self, if◌then◌else◌, ℤ, pos, Json, num, str, obj, arr, nil, cons, Fields,
  end, field, arith,
}
use dev_hub.Reply.{split}
use dev_hub.Task.{format_common, Task, World}
use dev_hub.Command.{Transcation, Devices}
use dev_hub.Command.Down.{
  Csv, no_items, number_field, array_field, command_item, req_id_item, on_item, on_items,
  down_value, reparse, down_info,
}

in_range : (n : ℕ) → n ≤ 6 → ltb 6 n ≡ false
in_range n h = ground arith

balance_item :
    (stoi : Text → Option ℤ) (cmd : Text) (c : Csv) (n : ℕ)
    → stoi c.slot_id ≡ some (pos n)
    → n ≤ 6
    → (cmd ≡ codes "BalanceQp") ⊎ (cmd ≡ codes "BalanceCl")
    → command_item stoi cmd c ≡ some (true, record c { param = some (pos n); cmd = some cmd })
unfolding command_item text_eq
balance_item stoi cmd c n e l (inl k) = rw (e, command_item) rw (in_range n l) rw k refl
balance_item stoi cmd c n e l (inr k) = rw (e, command_item) rw (in_range n l) rw k refl

spit_item :
    (stoi : Text → Option ℤ) (cmd : Text) (c : Csv) (n : ℕ)
    → stoi c.slot_id ≡ some (pos n)
    → n ≤ 6
    → cmd ≡ codes "GetSpitParam"
    → command_item stoi cmd c ≡ some (true, record c { equip_num = some (pos n); cmd = some cmd })
unfolding command_item text_eq
spit_item stoi cmd c n e l k = rw (e, command_item) rw (in_range n l) rw k refl

-- The members of `root` for a complete command.
abbrev pub command_fields : ℕ → Text → Option ℤ → Option ℤ → Fields
command_fields q cmd param equip = field (codes "ReqId") (num (pos q)) (
    field (codes "cmd") (str cmd)
      (number_field (codes "equipNum") equip (array_field (codes "param") param end)))

on_items_csv :
    (stoi : Text → Option ℤ) (machine station slot cmd req : Text) (q : ℕ) (t : Task)
    (param equip : Option ℤ)
    → let base : Csv = record no_items {
      machine_id = machine;
      station_id = station;
      slot_id = slot;
    } in
      command_item stoi cmd base
        ≡ some (true, record base { param = param; equip_num = equip; cmd = some cmd })
      → stoi req ≡ some (pos q)
      → on_items stoi 0 (machine ∷ station ∷ slot ∷ cmd ∷ req ∷ []) no_items t
        ≡ some (
          true,
          record base { param = param; equip_num = equip; cmd = some cmd; req_id = some (pos q) },
          record t { machine_id = machine; station_id = station; slot_id = slot },
        )
unfolding on_items on_item req_id_item
on_items_csv stoi machine station slot cmd req q t param equip z e =
    rw (z, on_items, on_item) rw (e, on_items, on_item, req_id_item) refl

csv_accepted :
    (parse : Text → Option Json) (styled : Json → Text) (stoi : Text → Option ℤ) (tc : Transcation)
    (info machine station slot cmd req : Text) (q : ℕ) (t : Task) (w : World Devices)
    (param equip : Option ℤ)
    → parse info ≡ none
    → ((param equip : Option ℤ)
        → parse (styled (obj (command_fields q cmd param equip)))
          ≡ some (obj (command_fields q cmd param equip)))
    → split info 44 ≡ machine ∷ station ∷ slot ∷ cmd ∷ req ∷ []
    → let base : Csv = record no_items {
      machine_id = machine;
      station_id = station;
      slot_id = slot;
    } in
      command_item stoi cmd base
        ≡ some (true, record base { param = param; equip_num = equip; cmd = some cmd })
      → stoi req ≡ some (pos q)
      → down_info parse styled stoi tc info (t, w)
        ≡ down_value parse styled stoi tc (obj (command_fields q cmd param equip)) (
          record t {
            machine_id = machine;
            station_id = station;
            slot_id = slot;
            format = format_common;
          },
          w,
        )
unfolding down_info
csv_accepted parse styled stoi tc info machine station slot cmd req q t w param equip p back s z e =
    rw (p, down_info) rw s rw (on_items_csv stoi machine station slot cmd req q t param equip z e)
      rw (back param equip, reparse) refl

not_spit_qp : text_eq (codes "BalanceQp") (codes "GetSpitParam") ≡ false
unfolding text_eq
not_spit_qp = refl

not_spit_cl : text_eq (codes "BalanceCl") (codes "GetSpitParam") ≡ false
unfolding text_eq
not_spit_cl = refl

-- The object of a command in JSON: the balances get the slot's number as their only parameter, the
-- dispensers as `equipNum`.
abbrev pub object_for : ℕ → Text → ℕ → Fields
object_for q cmd n = field (codes "ReqId") (num (pos q)) (
    field (codes "cmd") (str cmd) (
      if text_eq cmd (codes "GetSpitParam")
      then field (codes "equipNum") (num (pos n)) end
      else field (codes "param") (arr (cons (num (pos n)) nil)) end))

-- A frame of five items, machine, station, slot, command and request, with a slot n from 0 to 6, one
-- of the three commands and a request that is not negative, when the JSON library reads back the
-- object of the command that it wrote: DownInfo does what it does with an object of just the
-- request, the command and the slot's number, which is `equipNum` for GetSpitParam and else the one
-- element of `param`, in the common format and with the machine, station and slot noted in the task.
pub down_info_csv :
    (parse : Text → Option Json) (styled : Json → Text) (stoi : Text → Option ℤ) (tc : Transcation)
    (info machine station slot cmd req : Text) (n q : ℕ) (t : Task) (w : World Devices)
    → parse info ≡ none
    → ((param equip : Option ℤ)
        → parse (styled (obj (command_fields q cmd param equip)))
          ≡ some (obj (command_fields q cmd param equip)))
    → split info 44 ≡ machine ∷ station ∷ slot ∷ cmd ∷ req ∷ []
    → stoi slot ≡ some (pos n)
    → n ≤ 6
    → (cmd ≡ codes "BalanceQp") ⊎ (cmd ≡ codes "BalanceCl") ⊎ (cmd ≡ codes "GetSpitParam")
    → stoi req ≡ some (pos q)
    → down_info parse styled stoi tc info (t, w)
      ≡ down_value parse styled stoi tc (obj (object_for q cmd n)) (
        record t {
          machine_id = machine;
          station_id = station;
          slot_id = slot;
          format = format_common;
        },
        w,
      )
down_info_csv parse styled stoi tc info machine station slot cmd req n q t w p back s e l k e' =
    by_cmd k
  where
    base : Csv
    base = record no_items { machine_id = machine; station_id = station; slot_id = slot }

    noted : Task × World Devices
    noted = (
      record t {
        machine_id = machine;
        station_id = station;
        slot_id = slot;
        format = format_common;
      },
      w,
    )

    use_item :
        (param equip : Option ℤ)
        → command_item stoi cmd base
          ≡ some (true, record base { param = param; equip_num = equip; cmd = some cmd })
        → command_fields q cmd param equip ≡ object_for q cmd n
        → down_info parse styled stoi tc info (t, w)
          ≡ down_value parse styled stoi tc (obj (object_for q cmd n)) noted
    use_item param equip z o =
        csv_accepted parse styled stoi tc info machine station slot cmd req q t w param equip p back
          s z e'
        ∙ ap (λ fs. down_value parse styled stoi tc (obj fs) noted) o

    weighs :
        text_eq cmd (codes "GetSpitParam") ≡ false
        → command_fields q cmd (some (pos n)) none ≡ object_for q cmd n
    weighs z = rw z refl

    spits :
        cmd ≡ codes "GetSpitParam" → command_fields q cmd none (some (pos n)) ≡ object_for q cmd n
    spits z = rw z rw (text_eq_self (codes "GetSpitParam")) refl

    by_cmd :
        (cmd ≡ codes "BalanceQp") ⊎ (cmd ≡ codes "BalanceCl") ⊎ (cmd ≡ codes "GetSpitParam")
        → down_info parse styled stoi tc info (t, w)
          ≡ down_value parse styled stoi tc (obj (object_for q cmd n)) noted
    by_cmd (inl z) =
        use_item (some (pos n)) none (balance_item stoi cmd base n e l (inl z))
          (weighs (rw z not_spit_qp))
    by_cmd (inr (inl z)) =
        use_item (some (pos n)) none (balance_item stoi cmd base n e l (inr z))
          (weighs (rw z not_spit_cl))
    by_cmd (inr (inr z)) = use_item none (some (pos n)) (spit_item stoi cmd base n e l z) (spits z)
