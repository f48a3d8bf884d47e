-- ===== src/Command/Data.antt =====
-- Transcation::UpdateInfo and GetMemberFromJson of transcation/Transcation.cpp: the result of a
-- device, in JSON, becomes the reply to the task's command. The members of an object come in the
-- order in which the JSON library keeps them.
use dev_hub.Base.{
  ◌≡◌, true, false, Option, none, some, List, [], ◌∷◌, ◌++◌, Text, codes, ℤ, pos, show_int,
  fits_int, if◌then◌else◌, Json, null, bool, num, real, str, arr, obj, Fields, end, field,
}
use dev_hub.Task.{CommunicationFormat, format_json, format_common, Task, World, update}
use dev_hub.Command.{Transcation, Devices}

-- What GetMemberFromJson pushes for one member; `none` is the exception of asInt or asUInt for a
-- number out of their range. Real numbers, arrays and objects are only printed.
abbrev pub member_texts : Json → Option (List Text)
member_texts null = some (show_int (pos 0) ∷ [])
member_texts (bool false) = some (show_int (pos 0) ∷ [])
member_texts (bool true) = some (show_int (pos 1) ∷ [])
member_texts (num n) = if fits_int n then some (show_int n ∷ []) else none
member_texts (real i n text) = some []
member_texts (str s) = some (s ∷ [])
member_texts (arr items) = some []
member_texts (obj fs) = some []

abbrev pub joined : Option (List Text) → Option (List Text) → Option (List Text)
joined none ys = none
joined (some xs) none = none
joined (some xs) (some ys) = some (xs ++ ys)

unfoldable pub get_members : Fields → Option (List Text)
get_members end = some []
get_members (field k v fs) = joined (member_texts v) (get_members fs)

-- The loop of BuildCommDataResponse.
unfoldable pub items_text : List Text → Text
items_text [] = []
items_text (item ∷ items) = 44 ∷ (item ++ items_text items)

unfoldable pub build_comm_data_response : List Text → Task → Text
unfolding items_text
build_comm_data_response data_ task =
    task.machine_id ++ (44 ∷ (task.station_id ++ (44 ∷ (task.slot_id ++ items_text data_))))

-- `getMemberNames` of a value that is no object is an exception, but for null.
abbrev pub members_of : Json → Option (List Text)
members_of null = some []
members_of (obj fs) = get_members fs
members_of (bool b) = none
members_of (num n) = none
members_of (real i n text) = none
members_of (str s) = none
members_of (arr items) = none

module _ (parse : Text → Option Json) (styled : Json → Text) where
  unfoldable pub build_data_response : Json → Text → ℤ → Text
  build_data_response data_ cmd req_id = styled (
      obj (
        field (codes "cmd") (str cmd) (
          field (codes "resultCode") (num (pos 0))
            (field (codes "result") data_ (field (codes "ReqId") (num req_id) end)))))

  -- The result in the format of the request.
  unfoldable pub data_response : Json → List Text → Task → Text
  unfolding build_data_response build_comm_data_response
  data_response root data_ t = elim t.format [
    | format_json ↦ build_data_response root t.cmd_name t.req_id
    | format_common ↦ build_comm_data_response data_ t
  ]

  -- UpdateInfo; `none` is an exception.
  unfoldable pub update_info :
      Transcation → Text → Task × World Devices → Option (Task × World Devices)
  unfolding data_response update
  update_info tc buf (t, w) = elim (parse buf) [
    | none ↦ some (t, w)
    | some root ↦ elim (members_of root) [
      | none ↦ none
      | some data_ ↦ some (update styled (data_response root data_ t) tc.id t w)
    ]
  ]

-- The texts that stand for an object's members in the common format: each text, and each number in
-- the range of `int`, null and truth value by its number; the other members are left out.
abbrev pub IsListOf : List Text → Fields → Type 0
IsListOf [] end = Unit
IsListOf (w ∷ ws) end = ⊥
IsListOf ws (field k (real i n text) fs) = IsListOf ws fs
IsListOf ws (field k (arr items) fs) = IsListOf ws fs
IsListOf ws (field k (obj inner) fs) = IsListOf ws fs
IsListOf [] (field k (num n) fs) = ⊥
IsListOf (w ∷ ws) (field k (num n) fs) = (fits_int n ≡ true) × (w ≡ show_int n) × IsListOf ws fs
IsListOf [] (field k (str s) fs) = ⊥
IsListOf (w ∷ ws) (field k (str s) fs) = (w ≡ s) × IsListOf ws fs
IsListOf [] (field k (bool b) fs) = ⊥
IsListOf (w ∷ ws) (field k (bool b) fs) =
    (w ≡ (if b then codes "1" else codes "0")) × IsListOf ws fs
IsListOf [] (field k null fs) = ⊥
IsListOf (w ∷ ws) (field k null fs) = (w ≡ codes "0") × IsListOf ws fs

-- Texts with commas between them.
abbrev pub with_commas : List Text → Text
with_commas [] = []
with_commas (w ∷ []) = w
with_commas (w ∷ x ∷ ws) = let rest = with_commas (x ∷ ws) in w ++ (44 ∷ rest)

-- The reply in the format of the request: the object with the whole result, or the texts that stand
-- for its members behind machine, station and slot.
abbrev pub reply_in : CommunicationFormat → (Json → Text) → Fields → List Text → Task → Text
reply_in format_json styled fs ws t = styled (
    obj (
      field (codes "cmd") (str t.cmd_name) (
        field (codes "resultCode") (num (pos 0))
          (field (codes "result") (obj fs) (field (codes "ReqId") (num t.req_id) end)))))
reply_in format_common styled fs ws t = with_commas (t.machine_id ∷ t.station_id ∷ t.slot_id ∷ ws)
