-- ===== src/Solder/Run.antt =====
-- What a machine and the server receive in a whole exchange of the machines in
-- equipment/Sequence.cpp, the collecting of the machine's answers included.
use dev_hub.Base.{
  ℕ, ◌+◌, ◌-◌, ◌≤◌, ◌≡◌, ◌≢◌, refl, sym, ap, inl, inr, none, some, List, [], ◌∷◌, ◌++◌, ltb, take,
  length, length-append, Text, codes, text_eq, All, zeros, insert, insert-insert,
  lookup-insert_self, arith, Bool-cases, Option-cases,
}
use mathlib.Core.List.{append_assoc, append-nil}
use dev_hub.Solder.{
  SequenceType, SequenceState, idle, up_load, SolderCtrl, Hub, Output, write_peripheral, Step, done,
  and_then, output, set_state, change_state, recv_down_stream, recv_command, request, after_request,
  up_load_recv, recv_upstream, upstream, set_data, frame_buffer, on_byte, on_bytes,
}

-- Machine `e` beside the machines `m`; the other numbers are the machines of the shared states.
abbrev pub hub_at :
    List (ℕ × SolderCtrl) → ℕ → SequenceType → SequenceState → Text → ℕ → ℕ → ℕ → ℕ → Hub
hub_at m e t s d i u r a = record {
  equips = insert e (record { type = t; state = s; equip_data = d }) m;
  idle_equip = i;
  up_load_equip = u;
  rep_equip = r;
  a0_equip = a;
}

abbrev pub machine : SequenceType → SequenceState → Text → SolderCtrl
machine t s d = record { type = t; state = s; equip_data = d }

pub and_then-done : (x : Step) → and_then x done ≡ x
unfolding and_then
and_then-done none = refl
and_then-done (some (h, out)) = rw (append-nil out) refl

pub done-and_then : (h : Hub) (f : Hub → Step) → and_then (done h) f ≡ f h
unfolding and_then
done-and_then h f = elim (Option-cases (f h)) [ inl e ↦ rw e refl | inr (x, e) ↦ rw e refl ]

pub and_then-some :
    (x : Step) (f : Hub → Step) (h h' : Hub) (out out' : List Output)
    → x ≡ some (h, out)
    → f h ≡ some (h', out')
    → and_then x f ≡ some (h', out ++ out')
unfolding and_then
and_then-some x f h h' out out' e e' = rw (e, and_then) rw e' refl

pub take-length {ℓ} : {A : Type ℓ} (xs : List A) → take (length xs) xs ≡ xs
take-length [] = refl
take-length (x ∷ xs) = ap (λ r. x ∷ r) (take-length xs)

module _ (convert : ℕ → Text) (m : List (ℕ × SolderCtrl)) (e : ℕ) (t : SequenceType) where
  pub set_data_at :
      (s : SequenceState) (d x : Text) (i u r a : ℕ)
      → set_data e x (hub_at m e t s d i u r a) ≡ done (hub_at m e t s x i u r a)
  unfolding set_data
  set_data_at s d x i u r a =
      let old = machine t s d in
      rw (lookup-insert_self e old m, set_data) rw (insert-insert e (machine t s x) old m) refl

  pub set_state_at :
      (s s' : SequenceState) (d : Text) (i u r a : ℕ)
      → set_state e s' (hub_at m e t s d i u r a) ≡ done (hub_at m e t s' d i u r a)
  unfolding set_state
  set_state_at s s' d i u r a =
      let old = machine t s d in
      rw (lookup-insert_self e old m, set_state) rw (insert-insert e (machine t s' d) old m) refl

  pub recv_command_at :
      (cmd : Text) (s : SequenceState) (d : Text) (i u r a : ℕ)
      → recv_command e cmd (hub_at m e t s d i u r a)
        ≡ recv_down_stream s cmd (hub_at m e t s d i u r a)
  unfolding recv_command
  recv_command_at cmd s d i u r a = rw (lookup-insert_self e (machine t s d) m, recv_command) refl

  pub upstream_at :
      (buf : Text) (s : SequenceState) (d : Text) (i u r a : ℕ)
      → upstream convert e buf (hub_at m e t s d i u r a)
        ≡ recv_upstream convert s buf (hub_at m e t s d i u r a)
  unfolding upstream
  upstream_at buf s d i u r a = rw (lookup-insert_self e (machine t s d) m, upstream) refl

  pub command_at :
      (d : Text) (u r a : ℕ)
      → recv_command e (codes "GetSpitParam") (hub_at m e t idle d e u r a)
        ≡ some (hub_at m e t up_load d e e r a, write_peripheral e (5 ∷ []) ∷ [])
  unfolding recv_down_stream change_state output text_eq
  command_at d u r a =
      rw (recv_command_at (codes "GetSpitParam") idle d e u r a) rw
        (set_state_at idle up_load d e e r a) refl

  pub up_load_recv_at :
      (d buf : Text) (i r a : ℕ)
      → up_load_recv (6 ∷ buf) (hub_at m e t up_load d i e r a)
        ≡ output
            (write_peripheral e (request t))
            (change_state up_load (after_request t) (hub_at m e t up_load d i e r a))
  unfolding up_load_recv
  up_load_recv_at d buf i r a = rw (lookup-insert_self e (machine t up_load d) m, up_load_recv) refl

  -- A byte of an answer is kept.
  on_byte_at :
      (s : SequenceState) (d : Text) (b : ℕ) (i u r a : ℕ)
      → b ≢ 3
      → on_byte convert e b (hub_at m e t s d i u r a)
        ≡ done (hub_at m e t s (d ++ (b ∷ [])) i u r a)
  unfolding on_byte
  on_byte_at s d b i u r a h =
      rw (lookup-insert_self e (machine t s d) m, on_byte) rw
        (set_data_at s d (d ++ (b ∷ [])) i u r a) ground arith

  -- The byte that ends it hands the padded buffer to the state, and the bytes are dropped.
  on_byte_etx :
      (s : SequenceState) (d : Text) (i u r a : ℕ)
      → length d ≤ 100
      → on_byte convert e 3 (hub_at m e t s d i u r a)
        ≡ and_then
            (recv_upstream convert s (d ++ zeros (100 - length d)) (hub_at m e t s d i u r a))
            (set_data e [])
  unfolding on_byte frame_buffer
  on_byte_etx s d i u r a h =
      rw (lookup-insert_self e (machine t s d) m, on_byte)
        elim (Bool-cases (ltb 100 (length d))) [
          | inl z ↦ absurd (ground arith)
          | inr z ↦
              rw (z, frame_buffer) rw (upstream_at (d ++ zeros (100 - length d)) s d i u r a) refl
        ]

-- A whole answer, which ends in that byte, in one read.
pub on_bytes_at :
    (convert : ℕ → Text) (m : List (ℕ × SolderCtrl)) (e : ℕ) (t : SequenceType) (bytes : Text)
    (s : SequenceState) (d : Text) (i u r a : ℕ)
    → All (λ b. b ≢ 3) bytes
    → length d + length bytes ≤ 100
    → on_bytes convert e (bytes ++ (3 ∷ [])) (hub_at m e t s d i u r a)
      ≡ and_then
          (recv_upstream convert s
            ((d ++ bytes) ++ zeros (100 - length (d ++ bytes)))
            (hub_at m e t s (d ++ bytes) i u r a))
          (set_data e [])
unfolding on_bytes
on_bytes_at convert m e t [] s d i u r a h l =
    let ready =
      and_then (recv_upstream convert s (d ++ zeros (100 - length d)) (hub_at m e t s d i u r a))
        (set_data e []) in
    rw (append-nil d) rw (on_byte_etx convert m e t s d i u r a (omega arith)) rw
      (and_then-done ready) refl
on_bytes_at convert m e t (b ∷ bytes) s d i u r a h l =
    let rest =
      on_bytes_at convert m e t bytes s (d ++ (b ∷ [])) i u r a h.1
        (omega (arith, length-append d (b ∷ []))) in
    rw (on_byte_at convert m e t s d b i u r a h.0) rw
      (done-and_then (hub_at m e t s (d ++ (b ∷ [])) i u r a)
        (on_bytes convert e (bytes ++ (3 ∷ []))))
      rw (sym (append_assoc d (b ∷ []) bytes)) rest
