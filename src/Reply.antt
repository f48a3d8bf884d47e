-- ===== src/Reply.antt =====
-- The texts that equipment/Sequence.cpp builds from the answers of the solder and glue machines.
-- Arrays of bytes are lists; a read behind the end of one is a fault, `none`. An `int` is its
-- pattern of 32 bits. `convert` is the stream output of a float: of the int's value over 100.
mod Tests
use dev_hub.Base.{
  ℕ, zero, suc, ◌+◌, ◌-◌, ◌*◌, ◌%◌, ◌^◌, Bool, true, false, Option, none, some, List, [], ◌∷◌, ◌++◌,
  if◌then◌else◌, ltb, ◌==◌, get_elem?, length, Text, codes, digits,
}

-- `split(str, delim, elems)` with empty items skipped: `acc` is the item that is open.
unfoldable pub split_items : ℕ → Text → Text → List Text
split_items delim acc [] = if length acc == 0 then [] else acc ∷ []
split_items delim acc (c ∷ cs) =
    let next = split_items delim [] cs in
    let longer = split_items delim (acc ++ (c ∷ [])) cs in
    if c == delim then (if length acc == 0 then next else acc ∷ next) else longer

unfoldable pub split : Text → ℕ → List Text
unfolding split_items
split str delim = split_items delim [] str

-- A `char`, which is signed, as an int.
abbrev pub of_char : ℕ → ℕ
of_char c = if ltb c 128 then c else c + 2 ^ 32 - 256

-- `(c - 0x30)`.
abbrev pub digit : ℕ → ℕ
digit c = (of_char c + 2 ^ 32 - 48) % 2 ^ 32

-- `d[0] * 10^(n-1) + … + d[n-1]`, the sums of RecvUpstream, in 32 bits.
unfoldable pub number_of : List ℕ → ℕ → ℕ
number_of [] acc = acc
number_of (c ∷ cs) acc = number_of cs ((acc * 10 + digit c) % 2 ^ 32)

-- The `n` bytes from `i` on.
unfoldable pub read : Text → ℕ → ℕ → Option (List ℕ)
read buf i zero = some []
read buf i (suc n) = elim (get_elem? buf i) [
  | none ↦ none
  | some c ↦ elim (read buf (i + 1) n) [ none ↦ none | some cs ↦ some (c ∷ cs) ]
]

-- intToString: `%u` of an int.
unfoldable pub int_to_string : ℕ → Text
unfolding digits
int_to_string v = digits (suc v) v

-- `string result = data`: the bytes before the first NUL.
unfoldable pub c_string : Text → Option Text
c_string [] = none
c_string (c ∷ cs) =
    let rest = c_string cs in
    if c == 0 then some [] else elim rest [ none ↦ none | some s ↦ some (c ∷ s) ]

-- `{"Press":…,"time":…}`.
unfoldable pub reply_text : Text → Text → Text
reply_text pressure time =
    codes "{\"Press\":" ++ (pressure ++ (codes ",\"time\":" ++ (time ++ codes "}")))

-- RecvUpstream of SequenceUpLoadRepState for a solder machine.
unfoldable pub solder_reply : Text → Option Text
unfolding read number_of int_to_string reply_text
solder_reply buf = elim (read buf 8 4) [
  | none ↦ none
  | some p ↦ elim (read buf 13 5) [
    | none ↦ none
    | some t ↦ some (reply_text (int_to_string (number_of p 0)) (int_to_string (number_of t 0)))
  ]
]

-- The number in an item, `n` characters from its start; its closing NUL can be read.
unfoldable pub item_number : List Text → ℕ → ℕ → Option ℕ
unfolding read number_of
item_number elems i n = elim (get_elem? elems i) [
  | none ↦ none
  | some e ↦ elim (read (e ++ (0 ∷ [])) 0 n) [ none ↦ none | some cs ↦ some (number_of cs 0) ]
]

-- The same for a glue machine: the fourth item is the time, the twelfth the pressure. Where there
-- is no such item, the variable is read without a value.
unfoldable pub glue_reply : (ℕ → Text) → Text → Option Text
unfolding c_string split item_number reply_text
glue_reply convert buf = elim (c_string buf) [
  | none ↦ none
  | some s ↦ elim (item_number (split s 44) 3 6) [
    | none ↦ none
    | some time ↦ elim (item_number (split s 44) 11 5) [
      | none ↦ none
      | some pressure ↦ some (reply_text (convert pressure) (convert time))
    ]
  ]
]
