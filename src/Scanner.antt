-- ===== src/Scanner.antt =====
-- The scanners of equipment/Scanner.cpp with the key table of equipment/key_code.h. `styled` is
-- `Json::Value::toStyledString`. The input of the hand-held scanner is the list of the events in the
-- bytes that were read, each with the time at which it is handled; a rest that is shorter than an
-- event is dropped by the code. `none` says that an array was read or written out of its bounds.
pub mod Compact
pub mod Typed
pub mod Enter
mod Tests
use dev_hub.Base.{
  ℕ, zero, suc, ◌+◌, ◌*◌, ◌/◌, Bool, true, false, ◌&&◌, Option, none, some, List, [], ◌∷◌, ◌++◌,
  if◌then◌else◌, ltb, ◌==◌, get_elem?, set, length, zeros, Text, codes, ℤ, Json, str, num, obj,
  field, end,
}

-- key_ascii_map.
abbrev pub key_ascii_map : List ℕ
key_ascii_map =
    0 ∷ 0 ∷ []
    ++ (codes "1234567890"
        ++ (0 ∷ 0 ∷ 0 ∷ 0 ∷ []
            ++ (codes "qwertyuiop"
                ++ (0 ∷ 0 ∷ 0 ∷ 0 ∷ []
                    ++ (codes "asdfghjkl" ++ (0 ∷ 0 ∷ 0 ∷ 0 ∷ 0 ∷ [] ++ codes "zxcvbnm"))))))

-- The fields of an `input_event` that are read.
pub record InputEvent : Type 0 where
  pub kind : ℕ
  pub code : ℕ
  pub time : ℤ

-- The static variables `barBuf` and `i` of OnData, and what m_updater was given.
pub record HandhelScanner : Type 0 where
  pub dev_name : Text
  pub has_updater : Bool
  pub bar_buf : List ℕ
  pub i : ℕ
  pub updates : List Text

-- `barBuf[i ++] = c`.
unfoldable pub put : ℕ → HandhelScanner → Option HandhelScanner
put c s =
    if ltb s.i 100 then some (record s { bar_buf = set s.bar_buf s.i c; i = suc s.i }) else none

-- A read of the buffer.
abbrev pub with_char : (ℕ → Option (List ℕ)) → Option ℕ → Option (List ℕ)
with_char f none = none
with_char f (some c) = f c

-- The loop `barBuf[j+1] = barBuf[j*2 + 2]`, `n` rounds from `j` on.
unfoldable pub compact : ℕ → ℕ → List ℕ → Option (List ℕ)
compact zero j buf = some buf
compact (suc n) j buf =
    with_char (λ c. compact n (suc j) (set buf (suc j) c)) (get_elem? buf (j * 2 + 2))

-- A `std::string` of a zero-terminated array.
unfoldable pub c_string : List ℕ → Text
c_string [] = []
c_string (c ∷ cs) = let rest = c_string cs in if c == 0 then [] else c ∷ rest

-- The value that both scanners report.
abbrev pub scan_report : Text → ℤ → Text → Json
scan_report dev time code = obj (
    field (codes "dev") (str dev)
      (field (codes "time") (num time) (field (codes "code") (str code) end)))

abbrev pub then_go :
    (HandhelScanner → Option HandhelScanner) → Option HandhelScanner → Option HandhelScanner
then_go f none = none
then_go f (some s) = f s

-- A key other than Enter, with its entry of the table.
abbrev pub on_char : Option ℕ → HandhelScanner → Option HandhelScanner
on_char none s = none
on_char (some zero) s = some s
on_char (some (suc c)) s = put (suc c) s

module _ (styled : Json → Text) where
  -- The end of an Enter key: the text, the update, and the reset.
  abbrev pub report_code : ℤ → ℕ → HandhelScanner → Option (List ℕ) → Option HandhelScanner
  report_code time send_len s none = none
  report_code time send_len s (some buf) =
      let out = styled (scan_report s.dev_name time (c_string (set buf send_len 0))) in
      some (record s {
        bar_buf = zeros 100;
        i = 0;
        updates = if s.has_updater && ltb 0 send_len then s.updates ++ (out ∷ []) else s.updates;
      })

  abbrev pub after_enter : ℤ → Option HandhelScanner → Option HandhelScanner
  after_enter time none = none
  after_enter time (some s) =
      let send_len = s.i / 2 in report_code time send_len s (compact send_len 0 s.bar_buf)

  unfoldable pub on_event : InputEvent → HandhelScanner → Option HandhelScanner
  unfolding put compact c_string
  on_event e s =
      if e.kind == 1
      then (if e.code == 28
          then after_enter e.time (put 10 s)
          else if ltb (length key_ascii_map) e.code
          then some s
          else on_char (get_elem? key_ascii_map e.code) s)
      else some s

  -- HandhelScanner::OnData.
  unfoldable pub on_data : List InputEvent → HandhelScanner → Option HandhelScanner
  unfolding on_event
  on_data [] s = some s
  on_data (e ∷ es) s = then_go (λ t. on_data es t) (on_event e s)

-- KeyenceScanner::OnData: what m_updater is given for a zero-terminated text.
unfoldable pub keyence_on_data : (Json → Text) → Text → Bool → ℤ → List ℕ → List Text
unfolding c_string
keyence_on_data styled dev has_updater time bytes =
    if has_updater then styled (scan_report dev time (c_string bytes)) ∷ [] else []
