-- ===== src/Session/Tests.antt =====
-- Runs of the session's functions, and its theorems at concrete inputs.
use dev_hub.Base.{◌≡◌, refl, Text, [], ◌∷◌, ◌++◌, codes, arith}
use dev_hub.Session.{on_data, on_datas}
use dev_hub.Session.Frames.{split, on_data-split, on_data_lost_frame}
use dev_hub.Session.Stream.{on_datas-wire}

abbrev busy : Text
busy = 66 ∷ 117 ∷ []

abbrev done : Text
done = 79 ∷ 75 ∷ 33 ∷ []

two_frames : on_data (codes "a") (codes "b" ++ (0 ∷ 0 ∷ codes "cd")) ≡ (codes "cd", codes "ab" ∷ [])
unfolding on_data
two_frames = refl

on_data-split_example : on_data (7 ∷ 8 ∷ []) (0 ∷ 9 ∷ []) ≡ split (7 ∷ 8 ∷ []) (0 ∷ 9 ∷ [])
on_data-split_example = on_data-split (7 ∷ 8 ∷ []) (0 ∷ 9 ∷ []) (omega arith)

on_data_lost_frame_example :
    (on_data (7 ∷ []) (0 ∷ 8 ∷ 0 ∷ []) ≡ split (7 ∷ []) (8 ∷ 0 ∷ []))
    × ((split (7 ∷ []) (0 ∷ 8 ∷ 0 ∷ [])).1 ≡ (7 ∷ []) ∷ (split [] (8 ∷ 0 ∷ [])).1)
on_data_lost_frame_example = on_data_lost_frame 7 (8 ∷ 0 ∷ [])

on_datas-wire_example :
    on_datas [] ((66 ∷ []) ∷ (117 ∷ 0 ∷ 79 ∷ []) ∷ (75 ∷ 33 ∷ 0 ∷ []) ∷ []) ≡ ([], busy ∷ done ∷ [])
on_datas-wire_example =
    on_datas-wire (busy ∷ done ∷ []) ((66 ∷ []) ∷ (117 ∷ 0 ∷ 79 ∷ []) ∷ (75 ∷ 33 ∷ 0 ∷ []) ∷ [])
      (omega arith) refl
