-- ===== src/Solder/Answer.antt =====
-- One answer of a machine, from its bytes to what equipment/Sequence.cpp does with it.
use dev_hub.Base.{
  ℕ, zero, suc, ◌+◌, ◌-◌, ◌≤◌, ◌≡◌, ◌≢◌, refl, ◌∙◌, inl, inr, true, false, some, List, [], ◌∷◌,
  ◌++◌, ◌==◌, get_elem?, take, length, length-append, Text, codes, All, zeros, length-zeros,
  lookup-insert_self, arith, Bool-cases,
}
use mathlib.Core.List.{append-nil}
use dev_hub.Reply.{read, solder_reply, number_of, int_to_string, reply_text}
use dev_hub.Solder.{
  SequenceType, solder_sequence, SequenceState, idle, up_load_rep, up_load_rep_a0, SolderCtrl, Hub,
  Output, write_peripheral, up_stream, output, change_state, reply_of, is_a2, up_load_rep_recv,
  up_load_rep_a0_recv, recv_upstream, set_data, on_bytes, on_data, Event, device_data, step, run,
}
use dev_hub.Solder.Run.{
  hub_at, machine, and_then-some, take-length, set_data_at, set_state_at, on_bytes_at,
}

-- An answer without its closing ETX, when `d` is kept from before: no ETX inside, no ACK in
-- front, and both fit into the buffer of 100 bytes.
pub record IsAnswer (d bytes : Text) : Type 0 where
  pub no_etx : All (λ b. b ≢ 3) bytes
  pub no_ack : take 1 bytes ≢ 6 ∷ []
  pub fits : length d + length bytes ≤ 100

-- What RecvUpstream gets of it.
abbrev pub padded : Text → Text
padded bytes = bytes ++ zeros (100 - length bytes)

pub on_data-on_bytes :
    (convert : ℕ → Text) (e : ℕ) (bytes : Text) (h : Hub)
    → take 1 bytes ≢ 6 ∷ []
    → step convert e (device_data (bytes ++ (3 ∷ []))) h ≡ on_bytes convert e (bytes ++ (3 ∷ [])) h
unfolding step on_data
on_data-on_bytes convert e [] h n = refl
on_data-on_bytes convert e (b ∷ bytes) h n = elim (Bool-cases (b == 6)) [
  | inl z ↦ absurd (n (ground arith))
  | inr z ↦ rw z rw (take-length (bytes ++ (3 ∷ []))) refl
]

pub get_elem?-some : (xs : Text) (j : ℕ) → suc j ≤ length xs → (c : ℕ) × (get_elem? xs j ≡ some c)
get_elem?-some [] j h = absurd (omega arith)
get_elem?-some (x ∷ xs) zero h = (x, refl)
get_elem?-some (x ∷ xs) (suc j) h = get_elem?-some xs j (omega arith)

pub read_cons :
    (buf : Text) (i n c : ℕ) (cs : List ℕ)
    → get_elem? buf i ≡ some c
    → read buf (i + 1) n ≡ some cs
    → read buf i (suc n) ≡ some (c ∷ cs)
unfolding read
read_cons buf i n c cs e e' = rw (e, read) rw e' refl

pub read-some :
    (buf : Text) (i n : ℕ) → i + n ≤ length buf → (cs : List ℕ) × (read buf i n ≡ some cs)
read-some buf i zero h = ([], unfold read in refl)
read-some buf i (suc n) h =
    let (c, e) = get_elem?-some buf i (omega arith) in
    let (cs, e') = read-some buf (i + 1) n (omega arith) in (c ∷ cs, read_cons buf i n c cs e e')

pub length-padded : (bytes : Text) → length bytes ≤ 100 → length (padded bytes) ≡ 100
length-padded bytes h =
    omega
      (arith, length-append bytes (zeros (100 - length bytes)), length-zeros (100 - length bytes))

pub solder_reply-read :
    (buf : Text) (p t : List ℕ)
    → read buf 8 4 ≡ some p
    → read buf 13 5 ≡ some t
    → solder_reply buf
      ≡ some (reply_text (int_to_string (number_of p 0)) (int_to_string (number_of t 0)))
unfolding solder_reply
solder_reply-read buf p t e e' = rw (e, solder_reply) rw e' refl

pub solder_reply-some :
    (bytes : Text)
    → length bytes ≤ 100
    → (reply : Text) × (solder_reply (padded bytes) ≡ some reply)
solder_reply-some bytes h =
    let (p, e) = read-some (padded bytes) 8 4 (omega (arith, length-padded bytes h)) in
    let (t, e') = read-some (padded bytes) 13 5 (omega (arith, length-padded bytes h)) in
    (_, solder_reply-read (padded bytes) p t e e')

module _ (convert : ℕ → Text) (m : List (ℕ × SolderCtrl)) (e : ℕ) where
  pub a0_recv_at :
      (d buf : Text) (i u r : ℕ)
      → is_a2 buf ≡ some false
      → up_load_rep_a0_recv buf (hub_at m e solder_sequence up_load_rep_a0 d i u r e)
        ≡ some (hub_at m e solder_sequence up_load_rep d i u e e, write_peripheral e (6 ∷ []) ∷ [])
  unfolding up_load_rep_a0_recv change_state output
  a0_recv_at d buf i u r h =
      rw (h, up_load_rep_a0_recv) rw
        (set_state_at convert m e solder_sequence up_load_rep_a0 up_load_rep d i u e e) refl

  pub a0_refused_at :
      (d buf : Text) (i u r : ℕ)
      → is_a2 buf ≡ some true
      → up_load_rep_a0_recv buf (hub_at m e solder_sequence up_load_rep_a0 d i u r e)
        ≡ some (
          hub_at m e solder_sequence idle d e u r e,
          write_peripheral e (2 ∷ (codes "02" ++ (24 ∷ 24 ∷ (codes "6E" ++ (3 ∷ [])))))
              ∷ write_peripheral e (4 ∷ [])
              ∷ up_stream e (codes "{\"result\":null}")
              ∷ [],
        )
  unfolding up_load_rep_a0_recv change_state output
  a0_refused_at d buf i u r h =
      rw (h, up_load_rep_a0_recv) rw
        (set_state_at convert m e solder_sequence up_load_rep_a0 idle d e u r e) refl

  pub rep_recv_at :
      (t : SequenceType) (d buf reply : Text) (i u a : ℕ)
      → reply_of convert t buf ≡ some reply
      → up_load_rep_recv convert buf (hub_at m e t up_load_rep d i u e a)
        ≡ some (hub_at m e t idle d e u e a, up_stream e reply ∷ write_peripheral e (4 ∷ []) ∷ [])
  unfolding up_load_rep_recv change_state output
  rep_recv_at t d buf reply i u a h =
      rw (lookup-insert_self e (machine t up_load_rep d) m, up_load_rep_recv) rw h rw
        (set_state_at convert m e t up_load_rep idle d e u e a) refl

  -- One answer handled: the state's outputs, and no bytes kept.
  pub answer_at :
      (t : SequenceType) (s s' : SequenceState) (d bytes : Text) (i u r a i' u' r' a' : ℕ)
      (out : List Output)
      → IsAnswer d bytes
      → recv_upstream convert s (padded (d ++ bytes)) (hub_at m e t s (d ++ bytes) i u r a)
        ≡ some (hub_at m e t s' (d ++ bytes) i' u' r' a', out)
      → step convert e (device_data (bytes ++ (3 ∷ []))) (hub_at m e t s d i u r a)
        ≡ some (hub_at m e t s' [] i' u' r' a', out)
  answer_at t s s' d bytes i u r a i' u' r' a' out h k =
      rw (on_data-on_bytes convert e bytes (hub_at m e t s d i u r a) h.no_ack) rw
        (on_bytes_at convert m e t bytes s d i u r a h.no_etx h.fits) rw
        (and_then-some
          (recv_upstream convert s (padded (d ++ bytes)) (hub_at m e t s (d ++ bytes) i u r a))
          (set_data e []) (hub_at m e t s' (d ++ bytes) i' u' r' a')
          (hub_at m e t s' [] i' u' r' a') out [] k
          (set_data_at convert m e t s' (d ++ bytes) [] i' u' r' a'))
        rw (append-nil out) refl

pub run_cons :
    (convert : ℕ → Text) (e : ℕ) (ev : Event) (evs : List Event) (h h' h'' : Hub)
    (out out' : List Output)
    → step convert e ev h ≡ some (h', out)
    → run convert e evs h' ≡ some (h'', out')
    → run convert e (ev ∷ evs) h ≡ some (h'', out ++ out')
unfolding run
run_cons convert e ev evs h h' h'' out out' k k' =
    and_then-some (step convert e ev h) (run convert e evs) h' h'' out out' k k'

pub run_one :
    (convert : ℕ → Text) (e : ℕ) (ev : Event) (h h' : Hub) (out : List Output)
    → step convert e ev h ≡ some (h', out)
    → run convert e (ev ∷ []) h ≡ some (h', out)
run_one convert e ev h h' out k =
    run_cons convert e ev [] h h' h' out [] k (unfold run in refl) ∙ rw (append-nil out) refl
