-- ===== src/Solder/Tests.antt =====
-- Concrete exchanges of the solder and glue machines.
use dev_hub.Base.{ℕ, ◌≡◌, refl, some, [], ◌∷◌, ◌++◌, Text, codes, show_int, pos, lookup, arith}
use dev_hub.Reply.{solder_reply}
use dev_hub.Solder.{
  glue_sequence, solder_sequence, idle, up_load, Hub, write_peripheral, up_stream, command,
  device_data, task_timeout, request, construct, recv_command, run, is_a2,
}
use dev_hub.Solder.Run.{hub_at}
use dev_hub.Solder.Answer.{padded}
use dev_hub.Solder.Exchange.{run_solder}
use dev_hub.Solder.Kept.{KeepsTo}
use dev_hub.Solder.Shared.{run-KeepsTo, construct-IsOwned, recv_command_crossed}

abbrev nobody : Hub
nobody = record { equips = []; idle_equip = 0; up_load_equip = 0; rep_equip = 0; a0_equip = 0 }

abbrev centi : ℕ → Text
centi n = codes "c" ++ show_int (pos n)

abbrev accepted : Text
accepted = 2 ∷ codes "02A02D"

abbrev refused : Text
refused = 2 ∷ codes "02A22B"

abbrev measured : Text
measured = codes "0800UL00012345678901"

abbrev glue_measured : Text
glue_measured = codes "08,D0,T,000250,5,6,7,8,9,a,b,00123,c"

run_solder_example :
    (reply : Text) × (solder_reply (padded measured) ≡ some reply)
    × (run centi 4
          (command (codes "GetSpitParam")
            ∷ device_data (6 ∷ [])
            ∷ device_data (accepted ++ (3 ∷ []))
            ∷ device_data (measured ++ (3 ∷ []))
            ∷ [])
          (hub_at [] 4 solder_sequence idle [] 4 0 0 0)
        ≡ some (
          hub_at [] 4 solder_sequence idle [] 4 4 4 4,
          write_peripheral 4 (5 ∷ [])
              ∷ write_peripheral 4 (request solder_sequence)
              ∷ write_peripheral 4 (6 ∷ [])
              ∷ up_stream 4 reply
              ∷ write_peripheral 4 (4 ∷ [])
              ∷ [],
        ))
unfolding is_a2
run_solder_example =
    run_solder centi [] 4 [] accepted measured 0 0 0
      (record { no_etx = omega arith; no_ack = ground arith; fits = omega arith })
      (record { no_etx = omega arith; no_ack = ground arith; fits = omega arith }) refl

abbrev glue_machine : Hub
unfolding construct
glue_machine = construct 7 glue_sequence nobody

run-KeepsTo_example : KeepsTo 7 glue_machine (
    run centi 7
      (command (codes "GetSpitParam") ∷ task_timeout ∷ device_data (8 ∷ 3 ∷ []) ∷ [])
      glue_machine)
unfolding glue_machine construct
run-KeepsTo_example =
    run-KeepsTo centi 7
      (command (codes "GetSpitParam") ∷ task_timeout ∷ device_data (8 ∷ 3 ∷ []) ∷ []) glue_machine
      (construct-IsOwned 7 glue_sequence nobody)

recv_command_crossed_example :
    (h' : Hub) × (recv_command 7 (codes "GetSpitParam") (construct 4 solder_sequence glue_machine)
      ≡ some (h', write_peripheral 4 (5 ∷ []) ∷ []))
    × (lookup 7 h'.equips ≡ some (record { type = glue_sequence; state = idle; equip_data = [] }))
    × (lookup 4 h'.equips
        ≡ some (record { type = solder_sequence; state = up_load; equip_data = [] }))
unfolding glue_machine construct
recv_command_crossed_example =
    recv_command_crossed 7 4 glue_sequence solder_sequence nobody (omega arith)
