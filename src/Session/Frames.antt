-- ===== src/Session/Frames.antt =====
-- The frames of `Session::OnData` against a plain splitting at NUL bytes.
use dev_hub.Base.{
  ℕ, ◌+◌, ◌≤◌, ◌<◌, ◌≡◌, refl, List, [], ◌∷◌, ◌++◌, if◌then◌else◌, ◌==◌, length, length-append,
  Text, arith,
}
use dev_hub.Session.{Reader, on_byte, on_bytes, on_data}

-- The frames of a stream: the non-empty runs of bytes that a NUL closes. The first argument is
-- the run that is open; the first result is the one that stays open.
unfoldable pub split : Text → Text → Text × List Text
split acc [] = (acc, [])
split acc (c ∷ cs) =
    let closed = split [] cs in
    let longer = split (acc ++ (c ∷ [])) cs in
    if c == 0 then (if length acc == 0 then closed else (closed.0, acc ∷ closed.1)) else longer

-- The loop's test agrees with "the run is not empty".
record Agrees (r : Reader) : Type 0 where
  order : r.pos ≤ r.index
  empty : length r.rd_buffer ≡ 0 → r.index ≤ r.pos + 1
  single : length r.rd_buffer ≡ 1 → r.pos < r.index

nil_of_length {ℓ} : {A : Type ℓ} (xs : List A) → length xs ≡ 0 → xs ≡ []
nil_of_length [] h = refl
nil_of_length (x ∷ xs) h = absurd (omega arith)

-- The same at a first byte: only a NUL needs the part about a single byte.
record AgreesAt (r : Reader) (c : ℕ) : Type 0 where
  order : r.pos ≤ r.index
  empty : length r.rd_buffer ≡ 0 → r.index ≤ r.pos + 1
  single : length r.rd_buffer ≡ 1 → c ≡ 0 → r.pos < r.index

AgreesAt-of_Agrees : (r : Reader) (c : ℕ) → Agrees r → AgreesAt r c
AgreesAt-of_Agrees r c a = record { order = a.order; empty = a.empty; single = λ e _. a.single e }

on_byte-Agrees : (r : Reader) (c : ℕ) → AgreesAt r c → Agrees (on_byte r c).0
unfolding on_byte
on_byte-Agrees r c a = ground (arith, length-append r.rd_buffer (c ∷ []))

abbrev view : Reader × List Text → Text × List Text
view p = (p.0.rd_buffer, p.1)

on_byte-split :
    (r : Reader) (c : ℕ) (cs : Text)
    → AgreesAt r c
    → let (r', out) = on_byte r c in
      let (open_run, rest) = split r'.rd_buffer cs in
      split r.rd_buffer (c ∷ cs) ≡ (open_run, out ++ rest)
unfolding on_byte split
on_byte-split r c cs a = ground (arith, nil_of_length r.rd_buffer)

on_bytes-split : (cs : Text) (r : Reader) → Agrees r → view (on_bytes r cs) ≡ split r.rd_buffer cs
unfolding on_bytes split
on_bytes-split [] r a = refl
on_bytes-split (c ∷ cs) r a =
    let first = AgreesAt-of_Agrees r c a in
    ground (
      arith,
      on_bytes-split cs (on_byte r c).0 (on_byte-Agrees r c first),
      on_byte-split r c cs first,
    )

on_bytes-split_first :
    (r : Reader) (c : ℕ) (cs : Text)
    → AgreesAt r c
    → view (on_bytes r (c ∷ cs)) ≡ split r.rd_buffer (c ∷ cs)
unfolding on_bytes
on_bytes-split_first r c cs a =
    ground (arith, on_bytes-split cs (on_byte r c).0 (on_byte-Agrees r c a), on_byte-split r c cs a)

abbrev pub StartsWithNul : Text → Type 0
StartsWithNul [] = ⊥
StartsWithNul (c ∷ cs) = c ≡ 0

-- `OnData` cuts a read at its NUL bytes: the frames are the non-empty runs, in order, and the
-- last open run stays in the buffer. This holds unless one single byte is left over from the
-- reads before and the new read starts with the NUL that should close it.
pub on_data-split :
    (rd_buffer buf : Text)
    → ¬ ((length rd_buffer ≡ 1) × StartsWithNul buf)
    → on_data rd_buffer buf ≡ split rd_buffer buf
on_data-split rd [] h = unfold on_data split in refl
on_data-split rd (c ∷ cs) h =
    unfold on_data in
    on_bytes-split_first (record { index = 0; pos = 0; rd_buffer = rd }) c cs
      (record { order = omega arith; empty = λ e. omega arith; single = λ e z. absurd (h (e, z)) })

-- In the case left out a one-byte frame is lost: its closing NUL is passed over, the byte stays
-- in the buffer and is put in front of the next frame, where the plain splitting delivers it.
pub on_data_lost_frame :
    (x : ℕ) (cs : Text)
    → (on_data (x ∷ []) (0 ∷ cs) ≡ split (x ∷ []) cs)
      × ((split (x ∷ []) (0 ∷ cs)).1 ≡ (x ∷ []) ∷ (split [] cs).1)
on_data_lost_frame x cs = (
  unfold on_data in
      on_bytes-split cs (record { index = 1; pos = 0; rd_buffer = x ∷ [] }) (omega arith),
  unfold split in refl,
)
