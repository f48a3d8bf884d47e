-- ===== src/Machine/Profile.antt =====
-- What the machines that MachinePlcBuilder of transcation/machine.cpp makes of profiles are like.
use dev_hub.Base.{
  ℕ, Bool, true, false, Option, none, some, List, [], ◌∷◌, if◌then◌else◌, ◌==◌, Text, codes,
  text_eq, text_eq_eq, lookup, lookup-insert, find_key, assign_key, add_unless, add_key,
  find_key-assign_key_self, find_key-assign_key_other, ◌≡◌, ==_iff, ap, refl, sym, ◌∙◌, inl, inr,
  ◌⊎◌, Bool-cases,
}
use mathlib.Core.Path.{subst}
use dev_hub.Events.{PlcAlarmInfo, EvPara, Event}
use dev_hub.Events.Sniff.{AlarmMap}
use dev_hub.Machine.{Machine, EventMap, push_main_event, push_stations_event}
use dev_hub.Machine.Polling.{AllEvents, IsSome, HasKey, IsPollable, assign_key-AllEvents}
use dev_hub.Machine.Build.{
  build_event, offset_of, alarm_unless, add_alarm, add_alarms, push_made, build_main_device_profile,
  build_station, build_custom_events,
}

-- The first alarm of a list with an offset.
unfoldable pub first_alarm : ℕ → List PlcAlarmInfo → Option (Option PlcAlarmInfo)
first_alarm k [] = none
first_alarm k (a ∷ as_) = if offset_of a == k then some (some a) else first_alarm k as_

abbrev pub or_else :
    Option (Option PlcAlarmInfo) → Option (Option PlcAlarmInfo) → Option (Option PlcAlarmInfo)
or_else (some v) other = some v
or_else none other = other

or_else-none : (o : Option (Option PlcAlarmInfo)) → or_else o none ≡ o
or_else-none none = refl
or_else-none (some v) = refl

-- An alarm is entered if its offset is free.
lookup-alarm_unless :
    (o : Option (Option PlcAlarmInfo)) (k : ℕ) (a : PlcAlarmInfo) (m : AlarmMap)
    → lookup (offset_of a) m ≡ o
    → lookup k (alarm_unless o a m)
      ≡ or_else (lookup k m) (if offset_of a == k then some (some a) else none)
lookup-alarm_unless none k a m e = elim (Bool-cases (offset_of a == k)) [
  | inl z ↦
      let free : lookup k m ≡ none =
        subst (λ j. lookup j m ≡ none) ((==_iff (offset_of a) k).0 z) e in
      rw (lookup-insert k (offset_of a) (some a) m, z, free) refl
  | inr z ↦ rw (lookup-insert k (offset_of a) (some a) m, z) (sym (or_else-none (lookup k m)))
]
lookup-alarm_unless (some v) k a m e = elim (Bool-cases (offset_of a == k)) [
  | inl z ↦
      let taken : lookup k m ≡ some v =
        subst (λ j. lookup j m ≡ some v) ((==_iff (offset_of a) k).0 z) e in
      rw (z, taken) refl
  | inr z ↦ rw z (sym (or_else-none (lookup k m)))
]

or_else_step :
    (b : Bool) (v : Option PlcAlarmInfo) (x y : Option (Option PlcAlarmInfo))
    → or_else (or_else x (if b then some v else none)) y ≡ or_else x (if b then some v else y)
or_else_step true v none y = refl
or_else_step true v (some w) y = refl
or_else_step false v none y = refl
or_else_step false v (some w) y = refl

-- At an offset the map has what it had, or else the first alarm of the list with that offset.
pub lookup-add_alarms :
    (k : ℕ) (as_ : List PlcAlarmInfo) (m : AlarmMap)
    → lookup k (add_alarms as_ m) ≡ or_else (lookup k m) (first_alarm k as_)
unfolding add_alarms first_alarm
lookup-add_alarms k [] m = sym (or_else-none (lookup k m))
lookup-add_alarms k (a ∷ as_) m =
    lookup-add_alarms k as_ (add_alarm a m)
    ∙ ap (λ o. or_else o (first_alarm k as_))
        (lookup-alarm_unless (lookup (offset_of a) m) k a m refl)
    ∙ or_else_step (offset_of a == k) (some a) (lookup k m) (first_alarm k as_)

HasKey-add_unless :
    (o : Option (Option Event)) (j k : Text) (e : Event) (m : EventMap)
    → find_key k m ≡ o
    → HasKey j m
    → HasKey j (add_unless o k (some e) m)
HasKey-add_unless (some v) j k e m z h = h
HasKey-add_unless none j k e m z h = elim (Bool-cases (text_eq k j)) [
  | inl y ↦
      subst (λ i. HasKey i (assign_key k (some e) m)) (text_eq_eq k j y)
        (subst IsSome (sym (find_key-assign_key_self k (some e) m)) tt)
  | inr y ↦ subst IsSome (sym (find_key-assign_key_other j k (some e) m y)) h
]

HasKey-add_self :
    (o : Option (Option Event)) (k : Text) (e : Event) (m : EventMap)
    → find_key k m ≡ o
    → HasKey k (add_unless o k (some e) m)
HasKey-add_self (some v) k e m z = subst IsSome (sym z) tt
HasKey-add_self none k e m z = subst IsSome (sym (find_key-assign_key_self k (some e) m)) tt

AllEvents-add_unless :
    (o : Option (Option Event)) (k : Text) (e : Event) (m : EventMap)
    → AllEvents m
    → AllEvents (add_unless o k (some e) m)
AllEvents-add_unless (some v) k e m h = h
AllEvents-add_unless none k e m h = assign_key-AllEvents k e m h

-- A profile that has an event named HeartBeat of an action that BuildEvent knows.
abbrev pub BeatsIn : List EvPara → Type 0
BeatsIn [] = ⊥
BeatsIn (p ∷ ps) = ((p.event_name ≡ codes "HeartBeat") × IsSome (build_event p)) ⊎ BeatsIn ps

module _ {S : Type 0} where
  -- While the main events are pushed: the events so far, and HeartBeat among them if `b`.
  abbrev pub Good : Bool → Machine S → Type 0
  Good true m = IsPollable m
  Good false m = AllEvents m.main_events × AllEvents m.stations_events

  push_made-Good :
      (b : Bool) (name : Text) (o : Option Event) (m : Machine S)
      → Good b m
      → Good b (push_made push_main_event name o m)
  unfolding push_main_event
  push_made-Good b name none m h = h
  push_made-Good true name (some e) m h = (
    AllEvents-add_unless _ name e m.main_events h.0,
    h.1,
    HasKey-add_unless _ (codes "HeartBeat") name e m.main_events refl h.2,
  )
  push_made-Good false name (some e) m h = (AllEvents-add_unless _ name e m.main_events h.0, h.1)

  push_beat-Good :
      (name : Text) (o : Option Event) (m : Machine S)
      → name ≡ codes "HeartBeat"
      → IsSome o
      → Good false m
      → Good true (push_made push_main_event name o m)
  unfolding push_main_event
  push_beat-Good name none m e i h = elim i [ ]
  push_beat-Good name (some f) m e i h = (
    AllEvents-add_unless _ name f m.main_events h.0,
    h.1,
    subst (λ k. HasKey k (add_key name (some f) m.main_events)) e
        (HasKey-add_self _ name f m.main_events refl),
  )

  profile-Good :
      (b : Bool) (ps : List EvPara) (m : Machine S)
      → Good b m
      → Good b (build_main_device_profile ps m)
  unfolding build_main_device_profile
  profile-Good b [] m h = h
  profile-Good b (p ∷ ps) m h =
      profile-Good b ps _ (push_made-Good b p.event_name (build_event p) m h)

  pub profile_beats-Good :
      (ps : List EvPara) (m : Machine S)
      → BeatsIn ps
      → Good false m
      → IsPollable (build_main_device_profile ps m)
  unfolding build_main_device_profile
  profile_beats-Good [] m i h = elim i [ ]
  profile_beats-Good (p ∷ ps) m (inl i) h =
      profile-Good true ps _ (push_beat-Good p.event_name (build_event p) m i.0 i.1 h)
  profile_beats-Good (p ∷ ps) m (inr i) h =
      profile_beats-Good ps _ i (push_made-Good false p.event_name (build_event p) m h)

  push_station-Good :
      (name : Text) (o : Option Event) (m : Machine S)
      → Good false m
      → Good false (push_made push_stations_event name o m)
  unfolding push_stations_event
  push_station-Good name none m h = h
  push_station-Good name (some e) m h = (h.0, AllEvents-add_unless _ name e m.stations_events h.1)

  station-Good : (ps : List EvPara) (m : Machine S) → Good false m → Good false (build_station ps m)
  unfolding build_station
  station-Good [] m h = h
  station-Good (p ∷ ps) m h = station-Good ps _ (push_station-Good p.event_name (build_event p) m h)

  pub custom-Good :
      (ss : List (List EvPara)) (m : Machine S)
      → Good false m
      → Good false (build_custom_events ss m)
  unfolding build_custom_events
  custom-Good [] m h = h
  custom-Good (s ∷ ss) m h = custom-Good ss _ (station-Good s m h)
