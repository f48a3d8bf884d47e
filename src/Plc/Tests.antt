-- ===== src/Plc/Tests.antt =====
-- Runs of the links to a PLC, and their theorems at concrete inputs.
use dev_hub.Base.{
  ℕ, true, false, Option, none, some, List, [], ◌∷◌, ◌++◌, Text, codes, ◌≡◌, ◌≢◌, refl, arith, ◌+◌,
  Json, str, obj, field, end, pos,
}
use dev_hub.Plc
use dev_hub.Plc.{connect_ok, connect_no, FinsLib, new_plc, connect}
use dev_hub.Plc.Fins.{
  PlcFins, Net, idle, plc_status_busy, plc_status_idel, new_plc_fins, on_timer, update_info, trim,
  value_text, swapped_cmd,
}
use dev_hub.Plc.Link.{timer, result, run, run-IsLinked, IsLinkedIn, net_at}
use dev_hub.Plc.Timeout.{waiting, SomewhereIdle, waiting_ends}
use dev_hub.Plc.Proxy.{PlcProxy, Contex, new_proxy}
use dev_hub.Plc.Reconnect.{
  Operation, plc_connect, plc_write, tick, apply, apply_all, proxy_reconnects,
}

-- A library that counts its calls, always connects, always reads the command 3 and fails to write.
abbrev failing : FinsLib ℕ ℕ
failing = record {
  tcp_connect = λ ip port d. (some 9, true, d + 1);
  set_cs_mode = λ h d. d;
  disconnect = λ h d. d + 1;
  read_word = λ h addr n d. (some (0 ∷ 3 ∷ []), d + 1);
  write_word = λ h addr bytes n d. (false, d + 1);
  write_int32 = λ h addr bytes d. (true, d + 1);
}

abbrev dial : Text → ℕ → ℕ → ℕ × ℕ
dial ip port d = (9, d + 1)

abbrev asking : PlcFins
asking = new_plc_fins (codes "DM1") (codes "DM2") 1 2 3

abbrev fresh : Net ℕ ℕ
fresh = record { plc = new_plc (codes "10.0.0.1") 9600; device = 0; written = [] }

abbrev parse_result : Text → Option Json
parse_result text =
    some (
      obj
        (field (codes "symbol") (str (codes "-")) (field (codes "value") (str (codes " 1 ")) end)))

abbrev first_bytes : Text → List ℕ
first_bytes text = text

-- Not connected, so nothing is read; connected by the reconnect timer; a command to weigh.
weighs :
    run parse_result first_bytes failing
      (timer 3 0 ∷ timer 1 5000 ∷ timer 3 5001 ∷ [])
      (asking, fresh)
    ≡ some (
      record (waiting asking) { start_time = 5001 },
      net_at connect_ok (some 9) (codes "10.0.0.1") 9600 2 (codes "%ER" ∷ []),
    )
unfolding run Plc.Link.step on_timer Plc.Fins.detect_idle Plc.Fins.fins_connect connect
    Plc.Fins.on_command Plc.Fins.write_data new_plc new_plc_fins
weighs = refl

value_text-negative :
    value_text (obj (field (codes "value") (str (codes " 1 ")) end)) ≡ some (codes "-1")
unfolding dev_hub.Command.member dev_hub.Command.find_field dev_hub.Base.text_eq value_text
    Plc.Fins.text_of trim Plc.Fins.drop_spaces Plc.Fins.drop_last_spaces
value_text-negative = refl

run-IsLinked_example : IsLinkedIn parse_result first_bytes failing (
    run parse_result first_bytes failing
      (timer 1 5000 ∷ timer 3 5001 ∷ timer 3 30000 ∷ result (codes "errorData") ∷ [])
      (asking, fresh))
unfolding new_plc
run-IsLinked_example =
    run-IsLinked parse_result first_bytes failing
      (timer 1 5000 ∷ timer 3 5001 ∷ timer 3 30000 ∷ result (codes "errorData") ∷ [])
      (asking, fresh) tt

waiting_ends_example :
    SomewhereIdle failing
      (((2, 1000) ∷ [])
        ++ ((3, 16000) ∷ ((3, 16001) ∷ (2, 17000) ∷ []) ++ ((1, 20000) ∷ (3, 20001) ∷ [])))
      (waiting asking, fresh)
unfolding new_plc_fins
waiting_ends_example =
    waiting_ends failing dial (λ ip port d. refl) ((2, 1000) ∷ []) ((3, 16001) ∷ (2, 17000) ∷ [])
      ((3, 20001) ∷ []) 16000 20000 asking fresh (ground arith) (omega arith) (omega arith)

abbrev contex : Contex
contex = record { ip = codes "10.0.0.2"; port = 9600; module_num = 0; serial = none }

abbrev some_use : List Operation
some_use = plc_write (codes "DM1") (1 ∷ 2 ∷ []) 1 ∷ []

abbrev reconnected : PlcProxy ℕ
reconnected =
    (apply failing (tick 4) (
      apply_all failing ((tick 4 ∷ []) ++ (plc_connect (some contex) ∷ some_use))
        (new_proxy 4, 0))).0

proxy_reconnects_example :
    (reconnected.connection_status ≡ connect_ok) × (reconnected.handle ≢ none)
proxy_reconnects_example =
    proxy_reconnects failing dial (λ ip port d. refl) (tick 4 ∷ []) some_use contex 4 0
