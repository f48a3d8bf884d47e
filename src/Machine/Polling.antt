-- ===== src/Machine/Polling.antt =====
-- Which machines of transcation/machine.cpp can be polled: what a NULL among the events does, and
-- where one comes from.
use dev_hub.Base.{
  ℕ, Bool, true, false, Option, none, some, List, [], ◌∷◌, ◌==◌, ==_self, Text, codes, text_eq,
  text_ltb, find_key, assign_key, find_key-assign_key_self, Json, ◌≡◌, ◌≢◌, refl, sym, ap,
  if◌then◌else◌, arith, inl, inr, Bool-cases,
}
use mathlib.Core.Path.{subst}
use dev_hub.Events.{ProxyOps, Event, Reach}
use dev_hub.Events.Sniff.{sniffing_plc_event}
use dev_hub.Machine.{
  Machine, EventMap, put_back, poll_events, polled, poll_stations, event_polling, beat, on_timer,
}

-- No event is NULL.
abbrev pub AllEvents : EventMap → Type 0
AllEvents [] = Unit
AllEvents ((name, none) ∷ m) = ⊥
AllEvents ((name, some e) ∷ m) = AllEvents m

abbrev pub IsSome {ℓ} : {A : Type ℓ} → Option A → Type 0
IsSome none = ⊥
IsSome (some a) = Unit

abbrev pub HasKey : Text → EventMap → Type 0
HasKey k m = IsSome (find_key k m)

-- All events are there, and one is named HeartBeat.
abbrev pub IsPollable : {S : Type 0} → Machine S → Type 0
IsPollable m =
    AllEvents m.main_events × AllEvents m.stations_events × HasKey (codes "HeartBeat") m.main_events

pub assign_key-AllEvents :
    (k : Text) (e : Event) (m : EventMap) → AllEvents m → AllEvents (assign_key k (some e) m)
assign_key-AllEvents k e [] h = tt
assign_key-AllEvents k e ((j, none) ∷ m) h = elim h [ ]
assign_key-AllEvents k e ((j, some f) ∷ m) h = elim (Bool-cases (text_eq k j)) [
  | inl a ↦ rw a h
  | inr a ↦ elim (Bool-cases (text_ltb k j)) [
    | inl b ↦ rw (a, b) h
    | inr b ↦ rw (a, b) (assign_key-AllEvents k e m h)
  ]
]

HasKey_cons :
    (b : Bool) (v w : Option Event) (x y : Option (Option Event))
    → (IsSome x → IsSome y)
    → IsSome (if b then some v else x)
    → IsSome (if b then some w else y)
HasKey_cons true v w x y h i = tt
HasKey_cons false v w x y h i = h i

module _ {S : Type 0} (ops : ProxyOps S) (styled : Json → Text) where
  -- A map with NULL under a name cannot be polled.
  null-poll_events :
      (k : Text) (m : EventMap) (r : Reach S)
      → poll_events ops styled (assign_key k none m) r ≡ none
  unfolding poll_events
  null-poll_events k [] r = refl
  null-poll_events k ((j, w) ∷ m) r = elim (Bool-cases (text_eq k j)) [
    | inl a ↦ rw a refl
    | inr a ↦ elim (Bool-cases (text_ltb k j)) [
      | inl b ↦ rw (a, b) refl
      | inr b ↦ rw (a, b) (null_behind k j w m r (null-poll_events k m))
    ]
  ]
    where
      null_behind :
          (i n : Text) (o : Option Event) (l : EventMap) (s : Reach S)
          → ((t : Reach S) → poll_events ops styled (assign_key i none l) t ≡ none)
          → poll_events ops styled ((n, o) ∷ assign_key i none l) s ≡ none
      null_behind i n none l s h = refl
      null_behind i n (some e) l s h =
          let t = sniffing_plc_event ops styled (e, s) in ap (put_back n t.0) (h t.1)

  abbrev Polls : EventMap → Option (EventMap × Reach S) → Type 0
  Polls m none = ⊥
  Polls m (some (m', r)) = AllEvents m' × ((k : Text) → HasKey k m → HasKey k m')

  put_back-Polls :
      (name : Text) (e f : Event) (m : EventMap) (o : Option (EventMap × Reach S))
      → Polls m o
      → Polls ((name, some e) ∷ m) (put_back name f o)
  put_back-Polls name e f m none h = elim h [ ]
  put_back-Polls name e f m (some (m', r)) h = (
    h.0,
    λ k. HasKey_cons (text_eq name k) (some e) (some f) (find_key k m) (find_key k m') (h.1 k),
  )

  poll_events-Polls :
      (m : EventMap) (r : Reach S) → AllEvents m → Polls m (poll_events ops styled m r)
  unfolding poll_events
  poll_events-Polls [] r h = (tt, λ k i. i)
  poll_events-Polls ((name, none) ∷ m) r h = elim h [ ]
  poll_events-Polls ((name, some e) ∷ m) r h =
      let s = sniffing_plc_event ops styled (e, r) in
      put_back-Polls name e s.0 m _ (poll_events-Polls m s.1 h)

  abbrev pub IsPollableAfter : Option (Machine S) → Type 0
  IsPollableAfter none = ⊥
  IsPollableAfter (some m) = IsPollable m

  polled-IsPollable :
      (m : Machine S) (main stations : EventMap) (o : Option (EventMap × Reach S))
      → AllEvents main
      → HasKey (codes "HeartBeat") main
      → Polls stations o
      → IsPollableAfter (polled m main o)
  polled-IsPollable m main stations none h k p = elim p [ ]
  polled-IsPollable m main stations (some (stations', r)) h k p = (h, p.0, k)

  poll_stations-IsPollable :
      (m : Machine S) (o : Option (EventMap × Reach S))
      → IsPollable m
      → Polls m.main_events o
      → IsPollableAfter (poll_stations ops styled m o)
  poll_stations-IsPollable m none h p = elim p [ ]
  poll_stations-IsPollable m (some (main, r)) h p =
      polled-IsPollable m main m.stations_events (poll_events ops styled m.stations_events r) p.0
        (p.1 (codes "HeartBeat") h.2) (poll_events-Polls m.stations_events r h.1)

  event_polling-IsPollable :
      (m : Machine S) → IsPollable m → IsPollableAfter (event_polling ops styled m)
  unfolding event_polling
  event_polling-IsPollable m h =
      poll_stations-IsPollable m (poll_events ops styled m.main_events m.reach) h
        (poll_events-Polls m.main_events m.reach h.0)

  beat-IsPollable :
      (time : ℕ) (o : Option (Option Event)) (m : Machine S)
      → find_key (codes "HeartBeat") m.main_events ≡ o
      → IsPollable m
      → IsPollable (beat ops time o m)
  beat-IsPollable time none m e h = elim (subst IsSome e h.2) [ ]
  beat-IsPollable time (some none) m e h = h
  beat-IsPollable time (some (some f)) m e h = (
    assign_key-AllEvents (codes "HeartBeat") _ m.main_events h.0,
    h.1,
    subst IsSome (sym (find_key-assign_key_self (codes "HeartBeat") _ m.main_events)) tt,
  )

  on_timer-IsPollable :
      (tid time : ℕ) (m : Machine S)
      → IsPollable m
      → IsPollableAfter (on_timer ops styled tid time m)
  unfolding on_timer
  on_timer-IsPollable tid time m h = elim (Bool-cases (tid == m.value_polling)) [
    | inl a ↦ rw a (event_polling-IsPollable m h)
    | inr a ↦ elim (Bool-cases (tid == m.heartbeat)) [
      | inl b ↦ rw (a, b) (beat-IsPollable time _ m refl h)
      | inr b ↦ rw (a, b) h
    ]
  ]

  -- Ticks of a machine's timers, each with its time.
  unfoldable pub ticks : List (ℕ × ℕ) → Machine S → Option (Machine S)
  ticks [] m = some m
  ticks ((tid, time) ∷ ts) m = elim (on_timer ops styled tid time m) [
    | none ↦ none
    | some m' ↦ ticks ts m'
  ]

  then_ticks :
      (o : Option (Machine S)) (f : Machine S → Option (Machine S))
      → IsPollableAfter o
      → ((m : Machine S) → IsPollable m → IsPollableAfter (f m))
      → IsPollableAfter (elim o [ none ↦ none | some m ↦ f m ])
  then_ticks none f h g = elim h [ ]
  then_ticks (some m) f h g = g m h

  -- A machine without NULL events and with an event HeartBeat comes through any ticks of its
  -- timers: no NULL is dereferenced, and it is again such a machine.
  pub ticks-IsPollable :
      (ts : List (ℕ × ℕ)) (m : Machine S) → IsPollable m → IsPollableAfter (ticks ts m)
  unfolding ticks
  ticks-IsPollable [] m h = h
  ticks-IsPollable ((tid, time) ∷ ts) m h =
      then_ticks (on_timer ops styled tid time m) (ticks ts) (on_timer-IsPollable tid time m h)
        (ticks-IsPollable ts)

  -- A machine without an event HeartBeat, whose timers differ: after the heart beat timer's tick,
  -- which succeeds, the next tick of the polling timer dereferences NULL.
  pub heart_beat_breaks_polling :
      (time later : ℕ) (m : Machine S)
      → find_key (codes "HeartBeat") m.main_events ≡ none
      → m.heartbeat ≢ m.value_polling
      → (m' : Machine S) × (on_timer ops styled m.heartbeat time m ≡ some m')
        × (on_timer ops styled m.value_polling later m' ≡ none)
  unfolding on_timer event_polling
  heart_beat_breaks_polling time later m e n =
      let other : (m.heartbeat == m.value_polling) ≡ false = ground (arith, n) in
      (
        beat ops time none m,
        rw (other, ==_self m.heartbeat, e) refl,
        rw (==_self m.value_polling) (
            ap (poll_stations ops styled (beat ops time none m))
              (null-poll_events (codes "HeartBeat") m.main_events m.reach)),
      )
