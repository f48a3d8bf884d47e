-- ===== src/Misc.antt =====
-- Functions on memory and text of tools/ut_misc.c. Bytes are numbers below 256; a C string is
-- the list of its characters without the closing NUL.
pub mod Hex
pub mod Reverse
pub mod Blank
mod Tests
use dev_hub.Base.{
  ℕ, zero, suc, ◌+◌, ◌-◌, ◌*◌, ◌/◌, ◌%◌, Bool, true, false, ◌&&◌, ◌||◌, Option, none, some, List,
  [], ◌∷◌, ◌++◌, map, min, if◌then◌else◌, ltb, leb, ◌==◌, get_or, set, take, length, Text, codes,
}

-- The table of bin2hex.
abbrev pub hex : ℕ → ℕ
hex n = if ltb n 10 then 48 + n else 87 + n

-- bin2hex: the high half of each byte first.
unfoldable pub bin2hex : Text → Text
bin2hex [] = []
bin2hex (c ∷ mem) = hex ((c % 256) / 16) ∷ hex (c % 16) ∷ bin2hex mem

-- hex2int; `none` is the -1.
unfoldable pub hex2int : ℕ → Option ℕ
hex2int c =
    if leb 48 c && leb c 57
    then some (c - 48)
    else if leb 97 c && leb c 102
    then some ((c - 97) + 10)
    else if leb 65 c && leb c 70
    then some ((c - 65) + 10)
    else none

-- hex2bin: NULL for an odd length or another character.
unfoldable pub hex2bin : Text → Option Text
unfolding hex2int
hex2bin [] = some []
hex2bin (a ∷ []) = none
hex2bin (a ∷ b ∷ rest) =
    let tail = hex2bin rest in
    elim (hex2int a) [
      | none ↦ none
      | some part1 ↦ elim (hex2int b) [
        | none ↦ none
        | some part2 ↦ elim tail [ none ↦ none | some bytes ↦ some ((part1 * 16 + part2) ∷ bytes) ]
      ]
    ]

-- `tolower` and `toupper` of the C locale.
abbrev pub tolower : ℕ → ℕ
tolower c = if leb 65 c && leb c 90 then c + 32 else c

abbrev pub toupper : ℕ → ℕ
toupper c = if leb 97 c && leb c 122 then c - 32 else c

unfoldable pub strtolower : Text → Text
strtolower [] = []
strtolower (c ∷ str) = tolower c ∷ strtolower str

unfoldable pub strtoupper : Text → Text
strtoupper [] = []
strtoupper (c ∷ str) = toupper c ∷ strtoupper str

-- One swap of reverse_mem's loop, and the loop: `steps` rounds from `i` on.
unfoldable pub swap : ℕ → Text → Text
swap i mem =
    let tmp = get_or mem i 0 in let j = length mem - 1 - i in set (set mem i (get_or mem j 0)) j tmp

unfoldable pub reverse_loop : ℕ → ℕ → Text → Text
unfolding swap
reverse_loop zero i mem = mem
reverse_loop (suc steps) i mem = reverse_loop steps (i + 1) (swap i mem)

unfoldable pub reverse_mem : Text → Text
unfolding reverse_loop
reverse_mem mem = reverse_loop (length mem / 2) 0 mem

-- sstrncpy into a buffer of `n` bytes: what stands there up to and with the NUL; nothing is
-- written for `n = 0`.
unfoldable pub sstrncpy : Text → ℕ → Text
sstrncpy src zero = []
sstrncpy src (suc n) = take n src ++ (0 ∷ [])

-- `isblank` of the C locale.
abbrev pub isblank : ℕ → Bool
isblank c = (c == 32) || (c == 9)

-- The loop of strclearblank, with the rounds that are left, on memory that has the string.
unfoldable pub clear_loop : ℕ → ℕ → ℕ → List ℕ → List ℕ × ℕ
clear_loop zero i pos str = (str, pos)
clear_loop (suc n) i pos str =
    let c = get_or str i 0 in
    if isblank c
    then clear_loop n (suc i) pos str
    else clear_loop n (suc i) (suc pos) (set str pos c)

abbrev pub strlen : List ℕ → ℕ
strlen [] = 0
strlen (c ∷ cs) = let n = strlen cs in if c == 0 then 0 else suc n

unfoldable pub strclearblank : List ℕ → List ℕ
strclearblank str = let (str', pos) = clear_loop (strlen str) 0 0 str in set str' pos 0
