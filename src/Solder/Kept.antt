-- ===== src/Solder/Kept.antt =====
-- The steps of equipment/Sequence.cpp that keep to one machine.
use dev_hub.Base.{
  ℕ, ◌≡◌, ◌≢◌, refl, ◌∙◌, inl, inr, true, false, none, some, List, [], ◌∷◌, ◌++◌, ◌==◌, Text, codes,
  text_eq, All, All-append, lookup, insert, lookup-insert, lookup-insert_self, arith, Bool-cases,
  Option-cases,
}
use dev_hub.Solder.{
  SequenceState, idle, up_load, up_load_rep, up_load_rep_a0, SolderCtrl, Hub, Output,
  write_peripheral, up_stream, Step, done, and_then, output, equipment, instance_of, set_state,
  change_state, recv_down_stream, request, after_request, reply_of, is_a2, up_load_recv,
  up_load_rep_recv, up_load_rep_a0_recv, recv_upstream, upstream, set_data, frame_buffer, on_byte,
}
use mathlib.Core.Path.{subst}
use dev_hub.Solder.Run.{machine, and_then-some}

-- Machine `e` exists and its state knows it as its machine.
pub record IsOwned (e : ℕ) (h : Hub) : Type 0 where
  pub ctrl : SolderCtrl
  pub found : lookup e h.equips ≡ some ctrl
  pub owns : equipment ctrl.state h ≡ e

abbrev pub IsOf : ℕ → Output → Type 0
IsOf e (write_peripheral x bytes) = x ≡ e
IsOf e (up_stream x bytes) = x ≡ e

-- A step from `h0` that keeps to machine `e`, unless it faults.
abbrev pub KeepsTo : ℕ → Hub → Step → Type 0
KeepsTo e h0 none = Unit
KeepsTo e h0 (some (h, out)) =
    IsOwned e h × All (IsOf e) out × ((j : ℕ) → j ≢ e → lookup j h.equips ≡ lookup j h0.equips)

pub and_then-none :
    (h : Hub) (out : List Output) (f : Hub → Step) → f h ≡ none → and_then (some (h, out)) f ≡ none
unfolding and_then
and_then-none h out f e = rw (e, and_then) refl

pub and_then-KeepsTo :
    (e : ℕ) (h0 : Hub) (x : Step) (f : Hub → Step)
    → KeepsTo e h0 x
    → ((h : Hub) → IsOwned e h → KeepsTo e h (f h))
    → KeepsTo e h0 (and_then x f)
unfolding and_then
and_then-KeepsTo e h0 none f k g = k
and_then-KeepsTo e h0 (some (h, out)) f k g = elim (Option-cases (f h)) [
  | inl z ↦ rw (and_then-none h out f z) tt
  | inr ((h', out'), z) ↦
      let k' : KeepsTo e h (some (h', out')) = subst (λ x. KeepsTo e h x) z (g h k.0) in
      rw (and_then-some (some (h, out)) f h h' out out' refl z)
        (k'.0, All-append (IsOf e) out out' k.1 k'.1, λ j n. k'.2 j n ∙ k.2 j n)
]

pub output-KeepsTo :
    (e x : ℕ) (h0 : Hub) (o : Output) (s : Step)
    → IsOf e o
    → KeepsTo e h0 s
    → KeepsTo e h0 (output o s)
unfolding output
output-KeepsTo e x h0 o none k l = l
output-KeepsTo e x h0 o (some (h, out)) k l = (l.0, (k, l.1), l.2)

-- The machine with a new record, known to its state.
pub insert-KeepsTo :
    (e : ℕ) (c : SolderCtrl) (h h' : Hub)
    → h'.equips ≡ insert e c h.equips
    → equipment c.state h' ≡ e
    → KeepsTo e h (done h')
insert-KeepsTo e c h h' k k' = (
  record { ctrl = c; found = rw k (lookup-insert_self e c h.equips); owns = k' },
  tt,
  λ j n. rw k rw (lookup-insert j e c h.equips) ground arith,
)

pub set_state-KeepsTo :
    (e : ℕ) (s : SequenceState) (h : Hub) (c : SolderCtrl)
    → lookup e h.equips ≡ some c
    → KeepsTo e h (set_state e s (instance_of s e h))
unfolding set_state
set_state-KeepsTo e idle h c k =
    rw (k, set_state) (insert-KeepsTo e (machine c.type idle c.equip_data) h _ refl refl)
set_state-KeepsTo e up_load h c k =
    rw (k, set_state) (insert-KeepsTo e (machine c.type up_load c.equip_data) h _ refl refl)
set_state-KeepsTo e up_load_rep h c k =
    rw (k, set_state) (insert-KeepsTo e (machine c.type up_load_rep c.equip_data) h _ refl refl)
set_state-KeepsTo e up_load_rep_a0 h c k =
    rw (k, set_state) (insert-KeepsTo e (machine c.type up_load_rep_a0 c.equip_data) h _ refl refl)

pub equipment-insert :
    (s : SequenceState) (h : Hub) (es : List (ℕ × SolderCtrl))
    → equipment s (record h { equips = es }) ≡ equipment s h
equipment-insert idle h es = refl
equipment-insert up_load h es = refl
equipment-insert up_load_rep h es = refl
equipment-insert up_load_rep_a0 h es = refl

pub set_data-KeepsTo : (e : ℕ) (d : Text) (h : Hub) → IsOwned e h → KeepsTo e h (set_data e d h)
unfolding set_data
set_data-KeepsTo e d h o =
    rw (o.found, set_data)
      (insert-KeepsTo e (machine o.ctrl.type o.ctrl.state d) h _ refl
        (equipment-insert o.ctrl.state h _ ∙ o.owns))

-- A state that machine `e` is in, about to be left for another.
pub change_state-KeepsTo :
    (e : ℕ) (self s : SequenceState) (h : Hub) (c : SolderCtrl)
    → lookup e h.equips ≡ some c
    → equipment self h ≡ e
    → KeepsTo e h (change_state self s h)
unfolding change_state
change_state-KeepsTo e self s h c k k' = rw (k', change_state) (set_state-KeepsTo e s h c k)

-- Writing and going on: each output is for the state's machine.
module _ (e : ℕ) (h : Hub) (o : IsOwned e h) where
  pub stays : KeepsTo e h (done h)
  stays = (o, tt, λ j n. refl)

  pub recv_down_stream-KeepsTo :
      (s : SequenceState) (msg : Text) → equipment s h ≡ e → KeepsTo e h (recv_down_stream s msg h)
  unfolding recv_down_stream
  recv_down_stream-KeepsTo idle msg k = elim (Bool-cases (text_eq msg (codes "GetSpitParam"))) [
    | inl z ↦ rw z (
        output-KeepsTo e e h (write_peripheral h.idle_equip (5 ∷ [])) (change_state idle up_load h)
          k (change_state-KeepsTo e idle up_load h o.ctrl o.found k))
    | inr z ↦ rw z stays
  ]
  recv_down_stream-KeepsTo up_load msg k = stays
  recv_down_stream-KeepsTo up_load_rep msg k = stays
  recv_down_stream-KeepsTo up_load_rep_a0 msg k = stays

  pub up_load_recv-KeepsTo :
      (buf : Text) → equipment up_load h ≡ e → KeepsTo e h (up_load_recv buf h)
  unfolding up_load_recv
  up_load_recv-KeepsTo [] k = tt
  up_load_recv-KeepsTo (b ∷ buf) k = elim (Bool-cases (b == 6)) [
    | inl z ↦ rw z (elim (Option-cases (lookup h.up_load_equip h.equips)) [
      | inl y ↦ rw y tt
      | inr (c, y) ↦ rw y (
          output-KeepsTo e e h (write_peripheral h.up_load_equip (request c.type))
            (change_state up_load (after_request c.type) h) k
            (change_state-KeepsTo e up_load (after_request c.type) h o.ctrl o.found k))
    ])
    | inr z ↦ rw z stays
  ]

  pub up_load_rep_recv-KeepsTo :
      (convert : ℕ → Text) (buf : Text)
      → equipment up_load_rep h ≡ e
      → KeepsTo e h (up_load_rep_recv convert buf h)
  unfolding up_load_rep_recv
  up_load_rep_recv-KeepsTo convert buf k = elim (Option-cases (lookup h.rep_equip h.equips)) [
    | inl y ↦ rw (y, up_load_rep_recv) tt
    | inr (c, y) ↦
        rw (y, up_load_rep_recv)
          (elim (Option-cases (reply_of convert c.type buf)) [
            | inl z ↦ rw z tt
            | inr (resp, z) ↦ rw z (
                output-KeepsTo e e h (up_stream h.rep_equip resp) _ k (
                  output-KeepsTo e e h (write_peripheral h.rep_equip (4 ∷ [])) _ k
                    (change_state-KeepsTo e up_load_rep idle h o.ctrl o.found k)))
          ])
  ]

  pub up_load_rep_a0_recv-KeepsTo :
      (buf : Text) → equipment up_load_rep_a0 h ≡ e → KeepsTo e h (up_load_rep_a0_recv buf h)
  unfolding up_load_rep_a0_recv
  up_load_rep_a0_recv-KeepsTo buf k = elim (Option-cases (is_a2 buf)) [
    | inl y ↦ rw (y, up_load_rep_a0_recv) tt
    | inr (true, y) ↦
        rw (y, up_load_rep_a0_recv)
          (output-KeepsTo e e h (write_peripheral h.a0_equip _) _ k (
            output-KeepsTo e e h (write_peripheral h.a0_equip (4 ∷ [])) _ k (
              output-KeepsTo e e h (up_stream h.a0_equip (codes "{\"result\":null}")) _ k
                (change_state-KeepsTo e up_load_rep_a0 idle h o.ctrl o.found k))))
    | inr (false, y) ↦
        rw (y, up_load_rep_a0_recv)
          (output-KeepsTo e e h (write_peripheral h.a0_equip (6 ∷ [])) _ k
            (change_state-KeepsTo e up_load_rep_a0 up_load_rep h o.ctrl o.found k))
  ]

  pub recv_upstream-KeepsTo :
      (convert : ℕ → Text) (s : SequenceState) (buf : Text)
      → equipment s h ≡ e
      → KeepsTo e h (recv_upstream convert s buf h)
  unfolding recv_upstream
  recv_upstream-KeepsTo convert idle buf k = stays
  recv_upstream-KeepsTo convert up_load buf k = up_load_recv-KeepsTo buf k
  recv_upstream-KeepsTo convert up_load_rep buf k = up_load_rep_recv-KeepsTo convert buf k
  recv_upstream-KeepsTo convert up_load_rep_a0 buf k = up_load_rep_a0_recv-KeepsTo buf k

  pub upstream-KeepsTo : (convert : ℕ → Text) (buf : Text) → KeepsTo e h (upstream convert e buf h)
  unfolding upstream
  upstream-KeepsTo convert buf =
      rw (o.found, upstream) (recv_upstream-KeepsTo convert o.ctrl.state buf o.owns)

  pub on_byte-KeepsTo : (convert : ℕ → Text) (b : ℕ) → KeepsTo e h (on_byte convert e b h)
  unfolding on_byte
  on_byte-KeepsTo convert b =
      rw (o.found, on_byte)
        (elim (Bool-cases (b == 3)) [
          | inl z ↦ rw z (elim (Option-cases (frame_buffer o.ctrl.equip_data)) [
            | inl y ↦ rw y tt
            | inr (buf, y) ↦ rw y (
                and_then-KeepsTo e h (upstream convert e buf h) (set_data e [])
                  (upstream-KeepsTo convert buf) (set_data-KeepsTo e []))
          ])
          | inr z ↦ rw z (set_data-KeepsTo e (o.ctrl.equip_data ++ (b ∷ [])) h o)
        ])
