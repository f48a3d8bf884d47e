-- ===== src/Session.antt =====
-- lux::Session of Communication/session.cpp: bytes of a connection become frames for the
-- server, and messages go out with a closing NUL. The server's `OnFrame` is called once for
-- each frame; here `on_data` returns the frames in the order of those calls.
pub mod Frames
pub mod Stream
mod Tests
use dev_hub.Base.{
  ℕ, ◌+◌, ◌-◌, Bool, true, false, Option, none, some, List, [], ◌∷◌, ◌++◌, if◌then◌else◌, ltb, ◌==◌,
  length, Text,
}

-- The variables of the loop in `OnData`: `i`, `pos` and the member `m_rdBuffer`.
pub record Reader : Type 0 where
  pub index : ℕ
  pub pos : ℕ
  pub rd_buffer : Text

-- One round of the loop on the byte `buf[i]`. `len` is `i - pos` and the buffer's size.
unfoldable pub on_byte : Reader → ℕ → Reader × List Text
on_byte r c =
    if c == 0
    then (if ltb 1 ((r.index - r.pos) + length r.rd_buffer)
        then (record { index = r.index + 1; pos = r.index; rd_buffer = [] }, r.rd_buffer ∷ [])
        else (record { index = r.index + 1; pos = r.index; rd_buffer = r.rd_buffer }, []))
    else (record r { index = r.index + 1; rd_buffer = r.rd_buffer ++ (c ∷ []) }, [])

unfoldable pub on_bytes : Reader → Text → Reader × List Text
on_bytes r [] = (r, [])
on_bytes r (c ∷ cs) =
    let (r', out) = on_byte r c in let (r'', rest) = on_bytes r' cs in (r'', out ++ rest)

-- `OnData` on a non-null buffer: what is left in `m_rdBuffer`, and the frames in order.
unfoldable pub on_data : Text → Text → Text × List Text
unfolding on_bytes on_byte
on_data rd_buffer buf =
    let (r, out) = on_bytes (record { index = 0; pos = 0; rd_buffer = rd_buffer }) buf in
    (r.rd_buffer, out)

-- The reads of a connection, one after the other.
unfoldable pub on_datas : Text → List Text → Text × List Text
on_datas rd_buffer [] = (rd_buffer, [])
on_datas rd_buffer (buf ∷ bufs) =
    let (rd', out) = on_data rd_buffer buf in
    let (rd'', rest) = on_datas rd' bufs in (rd'', out ++ rest)

-- `SendMessage`: `none` is the -1 of a session that has no connection, else the bytes that are
-- handed to `Connection::Send`.
unfoldable pub send_message : Bool → Text → Option Text
send_message false str = none
send_message true str = some (str ++ (0 ∷ []))
