-- ===== src/Plc/Timeout.antt =====
-- How long a PlcFins of transcation/PlcFins.cpp stays busy, over ticks of its timers. A tick is
-- the id of a timer and the time.
use dev_hub.Base.{
  ℕ, ℤ, pos, negsuc, zero, suc, ◌+◌, ◌<◌, true, false, Option, none, some, List, [], ◌∷◌, ◌++◌,
  ◌==◌, ==_self, Text, ◌≡◌, ◌≢◌, refl, sym, ◌⊎◌, inl, inr, arith, Bool-cases,
}
use mathlib.Core.Path.{subst}
use dev_hub.Plc.{connect_no, FinsLib, connect, on_disconnect}
use dev_hub.Plc.Fins.{
  plc_status_busy, plc_status_idel, PlcFins, Net, after_connect, timed_out, error_timeout,
  write_cmd, plc_on_disconnect, write_data, fins_connect, detect_busy, on_timer,
}
use dev_hub.Plc.Link.{net_at}

abbrev pub waiting : PlcFins → PlcFins
waiting f = record f { status = plc_status_busy }

pub late_times_out :
    (now start : ℕ) → start + 15000 < now → now < start + 2147483648 → timed_out now start ≡ true
late_times_out now start h k = ground arith

module _ {D H : Type 0} (lib : FinsLib D H) where
  -- At the beginning, between two of the ticks or at the end the PlcFins is idle.
  abbrev pub SomewhereIdle : List (ℕ × ℕ) → PlcFins × Net D H → Type 0
  SomewhereIdle [] s = s.0.status ≡ plc_status_idel
  SomewhereIdle ((tid, now) ∷ ts) s =
      (s.0.status ≡ plc_status_idel) ⊎ SomewhereIdle ts (on_timer lib tid now s)

  idle-SomewhereIdle :
      (ts : List (ℕ × ℕ)) (s : PlcFins × Net D H)
      → s.0.status ≡ plc_status_idel
      → SomewhereIdle ts s
  idle-SomewhereIdle [] s h = h
  idle-SomewhereIdle (t ∷ ts) s h = inl h

  abbrev EndsOrWaits : PlcFins → PlcFins × Net D H → Type 0
  EndsOrWaits f r = (r.0.status ≡ plc_status_idel) ⊎ (r.0 ≡ waiting f)

  detect_busy-EndsOrWaits :
      (now : ℕ) (f : PlcFins) (s : Net D H) → EndsOrWaits f (detect_busy lib now (waiting f, s))
  unfolding detect_busy write_cmd plc_on_disconnect
  detect_busy-EndsOrWaits now f s = elim (Bool-cases (timed_out now f.start_time)) [
    | inr e ↦ rw e (inr refl)
    | inl e ↦ elim (Bool-cases (write_cmd lib (waiting f) error_timeout s).0) [
      | inl z ↦ rw (e, z) (inl refl)
      | inr z ↦ rw (e, z) (inr refl)
    ]
  ]

  after_connect-EndsOrWaits :
      (ret : ℤ) (f : PlcFins) (s : Net D H) → EndsOrWaits f (after_connect ret (waiting f), s)
  after_connect-EndsOrWaits (pos zero) f s = inl refl
  after_connect-EndsOrWaits (pos (suc n)) f s = inr refl
  after_connect-EndsOrWaits (negsuc n) f s = inr refl

  reconnect_tick-EndsOrWaits :
      (sys : Option H) (f : PlcFins) (s : Net D H)
      → EndsOrWaits f
          (elim sys [ none ↦ fins_connect lib (waiting f, s) | some h ↦ (waiting f, s) ])
  unfolding fins_connect
  reconnect_tick-EndsOrWaits (some h) f s = inr refl
  reconnect_tick-EndsOrWaits none f s =
      let (ret, p, d) = connect lib s.plc s.device in
      after_connect-EndsOrWaits ret f (record s { plc = p; device = d })

  tick-EndsOrWaits :
      (tid now : ℕ) (f : PlcFins) (s : Net D H)
      → EndsOrWaits f (on_timer lib tid now (waiting f, s))
  unfolding on_timer write_data fins_connect
  tick-EndsOrWaits tid now f s = elim (Bool-cases (tid == f.detect)) [
    | inl e ↦ rw e (detect_busy-EndsOrWaits now f s)
    | inr e ↦ elim (Bool-cases (tid == f.reconnect)) [
      | inl z ↦ rw (e, z) (reconnect_tick-EndsOrWaits s.plc.sys f s)
      | inr z ↦ elim (Bool-cases (tid == f.value_polling)) [
        | inl y ↦ rw (e, z, y) (inr refl)
        | inr y ↦ rw (e, z, y) (inr refl)
      ]
    ]
  ]

  -- What holds after the ticks of a PlcFins that still waits holds for the run from now on.
  waits-SomewhereIdle :
      (tid now : ℕ) (ts : List (ℕ × ℕ)) (f : PlcFins) (s : Net D H)
      → ((s' : Net D H) → SomewhereIdle ts (waiting f, s'))
      → SomewhereIdle ((tid, now) ∷ ts) (waiting f, s)
  waits-SomewhereIdle tid now ts f s rest =
      let r = on_timer lib tid now (waiting f, s) in
      inr (elim (tick-EndsOrWaits tid now f s) [
        | inl e ↦ idle-SomewhereIdle ts r e
        | inr e ↦ subst (λ x. SomewhereIdle ts (x, r.1)) (sym e) (rest r.1)
      ])

  -- The connection was given up while the PlcFins waits.
  abbrev down : PlcFins → Text → ℕ → D → List Text → PlcFins × Net D H
  down f ip port d written = (waiting f, net_at connect_no none ip port d written)

  abbrev EndsOrDown : PlcFins → Text → ℕ → PlcFins × Net D H → Type 0
  EndsOrDown f ip port r =
      (r.0.status ≡ plc_status_idel) ⊎ ((d : D) × (w : List Text) × (r ≡ down f ip port d w))

  detect_busy-EndsOrDown :
      (now : ℕ) (f : PlcFins) (s : Net D H)
      → timed_out now f.start_time ≡ true
      → EndsOrDown f s.plc.ip s.plc.port (detect_busy lib now (waiting f, s))
  unfolding detect_busy write_cmd plc_on_disconnect on_disconnect
  detect_busy-EndsOrDown now f s h =
      elim (Bool-cases (write_cmd lib (waiting f) error_timeout s).0) [
        | inl z ↦ rw (h, z) (inl refl)
        | inr z ↦ rw (h, z) (inr (_, _, refl))
      ]

  -- The library gives a handle and no error when it is asked to connect.
  abbrev pub Connects : (Text → ℕ → D → H × D) → Type 0
  Connects dial =
      (ip : Text) (port : ℕ) (d : D)
      → lib.tcp_connect ip port d ≡ (some (dial ip port d).0, true, (dial ip port d).1)

  down_connect-idle :
      (dial : Text → ℕ → D → H × D)
      → Connects dial
      → (f : PlcFins) (ip : Text) (port : ℕ) (d : D) (w : List Text)
      → (fins_connect lib (down f ip port d w)).0.status ≡ plc_status_idel
  unfolding fins_connect connect
  down_connect-idle dial c f ip port d w = rw (c ip port d) refl

  down_tick-EndsOrDown :
      (dial : Text → ℕ → D → H × D)
      → Connects dial
      → (tid now : ℕ) (f : PlcFins) (ip : Text) (port : ℕ) (d : D) (w : List Text)
      → EndsOrDown f ip port (on_timer lib tid now (down f ip port d w))
  unfolding on_timer write_data detect_busy
  down_tick-EndsOrDown dial c tid now f ip port d w = elim (Bool-cases (tid == f.detect)) [
    | inl e ↦ elim (Bool-cases (timed_out now f.start_time)) [
      | inl z ↦ rw e (detect_busy-EndsOrDown now f (down f ip port d w).1 z)
      | inr z ↦ rw (e, z) (inr (d, w, refl))
    ]
    | inr e ↦ elim (Bool-cases (tid == f.reconnect)) [
      | inl z ↦ rw (e, z) (inl (down_connect-idle dial c f ip port d w))
      | inr z ↦ elim (Bool-cases (tid == f.value_polling)) [
        | inl y ↦ rw (e, z, y) (inr (d, _, refl))
        | inr y ↦ rw (e, z, y) (inr (d, w, refl))
      ]
    ]
  ]

  down_ticks-SomewhereIdle :
      (dial : Text → ℕ → D → H × D)
      → Connects dial
      → (us vs : List (ℕ × ℕ)) (then_ : ℕ) (f : PlcFins) (ip : Text) (port : ℕ) (d : D)
        (w : List Text)
      → f.reconnect ≢ f.detect
      → SomewhereIdle (us ++ ((f.reconnect, then_) ∷ vs)) (down f ip port d w)
  unfolding on_timer
  down_ticks-SomewhereIdle dial c [] vs then_ f ip port d w n =
      let other : (f.reconnect == f.detect) ≡ false = ground (arith, n) in
      inr (
        idle-SomewhereIdle vs _
          (rw (other, ==_self f.reconnect) (down_connect-idle dial c f ip port d w)))
  down_ticks-SomewhereIdle dial c ((tid, now) ∷ us) vs then_ f ip port d w n =
      let rest = down_ticks-SomewhereIdle dial c us vs then_ f ip port in
      inr (elim (down_tick-EndsOrDown dial c tid now f ip port d w) [
        | inl e ↦ idle-SomewhereIdle _ _ e
        | inr (d', w', e) ↦
            subst (SomewhereIdle (us ++ ((f.reconnect, then_) ∷ vs))) (sym e) (rest d' w' n)
      ])

  late_tick-EndsOrDown :
      (late : ℕ) (f : PlcFins) (s : Net D H)
      → timed_out late f.start_time ≡ true
      → EndsOrDown f s.plc.ip s.plc.port (on_timer lib f.detect late (waiting f, s))
  unfolding on_timer
  late_tick-EndsOrDown late f s h = rw (==_self f.detect) (detect_busy-EndsOrDown late f s h)

  -- A PlcFins that waits since `f.start_time` is idle again at the latest after the first tick of
  -- its detect timer more than 15 seconds later and a tick of its reconnect timer after that,
  -- whatever ticks come before, between and after, and whatever libfins answers to reads and
  -- writes, when connecting succeeds, the two timers differ, and the late tick comes less than
  -- 2^31 milliseconds after the start.
  pub waiting_ends :
      (dial : Text → ℕ → D → H × D)
      → Connects dial
      → (ts us vs : List (ℕ × ℕ)) (late then_ : ℕ) (f : PlcFins) (s : Net D H)
      → f.reconnect ≢ f.detect
      → f.start_time + 15000 < late
      → late < f.start_time + 2147483648
      → SomewhereIdle (ts ++ ((f.detect, late) ∷ us ++ ((f.reconnect, then_) ∷ vs))) (waiting f, s)
  waiting_ends dial c [] us vs late then_ f s n h k =
      let after = us ++ ((f.reconnect, then_) ∷ vs) in
      inr (elim (late_tick-EndsOrDown late f s (late_times_out late f.start_time h k)) [
        | inl e ↦ idle-SomewhereIdle after _ e
        | inr (d, w, e) ↦
            subst (SomewhereIdle after) (sym e)
              (down_ticks-SomewhereIdle dial c us vs then_ f s.plc.ip s.plc.port d w n)
      ])
  waiting_ends dial c ((tid, now) ∷ ts) us vs late then_ f s n h k =
      let rest = waiting_ends dial c ts us vs late then_ f in
      waits-SomewhereIdle tid now _ f s (λ s'. rest s' n h k)
