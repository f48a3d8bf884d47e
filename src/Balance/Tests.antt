-- ===== src/Balance/Tests.antt =====
-- Frames of the balance, and the theorem of a weighing at a concrete input.
use dev_hub.Base.{
  ℕ, zero, suc, true, Option, none, some, [], ◌∷◌, ◌++◌, Text, codes, ℤ, pos, negsuc, Json, str,
  num, obj, field, ◌≡◌, refl, inr, ◌+◌, arith,
}
use dev_hub.Looper.{new_looper}
use dev_hub.Plc.{FinsLib, new_plc}
use dev_hub.Plc.Fins.{PlcFins, Net, new_plc_fins, send_value, update_info}
use dev_hub.Balance.{ElecBalance, measurement, value_of, unit_of, on_data}
use dev_hub.Balance.Weighed.{weighed}

-- "K -   1.25kg ", fourteen bytes.
abbrev frame : Text
frame = codes "K -    1.25kg "

frame_value : value_of frame ≡ codes "    1.25"
unfolding value_of
frame_value = refl

frame_unit : unit_of frame ≡ codes "kg"
unfolding unit_of
frame_unit = refl

-- A JSON library for the measurements of this frame.
abbrev body : Json → Text
body (obj (field a x (field b (num (pos n)) (field c (str s) more)))) = 0 ∷ n ∷ s
body (obj (field a x (field b (num (negsuc n)) (field c (str s) more)))) = 1 ∷ n ∷ s
body _ = []

abbrev written : Json → Text
written v = 123 ∷ body v

abbrev reread : Text → Option Json
reread (b ∷ zero ∷ n ∷ s) = some (measurement (pos n) s frame)
reread (b ∷ suc k ∷ n ∷ s) = some (measurement (negsuc n) s frame)
reread _ = none

reread-written :
    (used : ℤ) (symbol : Text)
    → reread (written (measurement used symbol frame)) ≡ some (measurement used symbol frame)
reread-written (pos n) symbol = refl
reread-written (negsuc n) symbol = refl

abbrev counting : FinsLib ℕ ℕ
counting = record {
  tcp_connect = λ ip port d. (some 9, true, d + 1);
  set_cs_mode = λ h d. d;
  disconnect = λ h d. d + 1;
  read_word = λ h addr n d. (none, d + 1);
  write_word = λ h addr bytes n d. (true, d + 1);
  write_int32 = λ h addr bytes d. (true, d + 1);
}

abbrev balance : ElecBalance
balance = record {
  looper = new_looper;
  made = true;
  added = true;
  sink = 3;
  timer = some 1;
  start_time = 100;
  updates = [];
  written = [];
}

abbrev plc_side : PlcFins × Net ℕ ℕ
plc_side = (
  new_plc_fins (codes "DM1") (codes "DM2") 1 2 3,
  record { plc = new_plc (codes "10.0.0.1") 9600; device = 0; written = [] },
)

weighed_example :
    (msg : Text) × ((on_data written frame 200 balance).updates ≡ balance.updates ++ (msg ∷ []))
    × (update_info reread (λ t. t) counting msg plc_side
        ≡ some (send_value counting (codes "-1.25") plc_side))
weighed_example =
    weighed reread (λ t. t) counting written 45 4 49 53 0 (codes ".2") (codes "kg ") 200 balance
      plc_side reread-written (λ fields. refl) (inr refl) refl (ground arith) (ground arith)
      (ground arith)
