-- ===== src/Machine.antt =====
-- Machine of transcation/machine.cpp: the events of a machine, by name, and its two timers. The
-- events of a machine share its contex and its proxy, which are in a `Reach`. `none` as an event is
-- NULL, and `none` as a result says that a NULL pointer was dereferenced.
pub mod Polling
pub mod Split
pub mod Build
pub mod Profile
pub mod Director
mod Tests
use dev_hub.Base.{
  ℕ, ◌+◌, ◌/◌, ◌%◌, ◌^◌, Bool, true, false, Option, none, some, List, [], ◌∷◌, ◌++◌, if◌then◌else◌,
  ◌==◌, Text, codes, find_key, assign_key, add_key, Json,
}
use dev_hub.Events.{ProxyOps, Event, Reach, get_next_sequence_id, short, send_eap_data}
use dev_hub.Events.Sniff.{sniffing_plc_event}

abbrev pub EventMap : Type 0
EventMap = List (Text × Option Event)

pub record Machine (S : Type 0) : Type 0 where
  pub name : Text
  pub main_events : EventMap
  pub stations_events : EventMap
  pub value_polling : ℕ
  pub heartbeat : ℕ
  pub reach : Reach S

-- Fream_HeartBeat_eap with RESULT_Pass: two `unsigned short` and the eight bytes of the time.
abbrev pub heart_beat_frame : ℕ → ℕ → List ℕ
heart_beat_frame sequence_id time =
    short sequence_id
    ++ (short 16
        ++ (time % 256
            ∷ (time / 256) % 256
            ∷ (time / 256 ^ 2) % 256
            ∷ (time / 256 ^ 3) % 256
            ∷ (time / 256 ^ 4) % 256
            ∷ (time / 256 ^ 5) % 256
            ∷ (time / 256 ^ 6) % 256
            ∷ (time / 256 ^ 7) % 256
            ∷ []))

module _ {S : Type 0} where
  -- PushMainEvent and PushStationsEvent.
  unfoldable pub push_main_event : Text → Option Event → Machine S → Machine S
  push_main_event name ev m = record m { main_events = add_key name ev m.main_events }

  unfoldable pub push_stations_event : Text → Option Event → Machine S → Machine S
  push_stations_event name ev m = record m { stations_events = add_key name ev m.stations_events }

  -- GetEvent, which returns no value for a name that neither map has.
  unfoldable pub get_event : Text → Machine S → Option (Option Event)
  get_event name m = elim (find_key name m.main_events) [
    | some ev ↦ some ev
    | none ↦ find_key name m.stations_events
  ]

  -- An event is put back under its name before those that were polled after it.
  abbrev pub put_back : Text → Event → Option (EventMap × Reach S) → Option (EventMap × Reach S)
  put_back name e none = none
  put_back name e (some (m, r)) = some ((name, some e) ∷ m, r)

abbrev pub polled :
    {S : Type 0} → Machine S → EventMap → Option (EventMap × Reach S) → Option (Machine S)
polled m main none = none
polled m main (some (stations, r)) =
    some (record m { main_events = main; stations_events = stations; reach = r })

module _ {S : Type 0} (ops : ProxyOps S) where
  -- What `m_mainEvents["HeartBeat"]` gives: a new key is entered with NULL.
  abbrev pub beat : ℕ → Option (Option Event) → Machine S → Machine S
  beat time none m = record m { main_events = assign_key (codes "HeartBeat") none m.main_events }
  beat time (some none) m = m
  beat time (some (some e)) m =
      let (n, e') = get_next_sequence_id e in
      record m {
        main_events = assign_key (codes "HeartBeat") (some e') m.main_events;
        reach = send_eap_data ops e' (heart_beat_frame n time) m.reach;
      }

module _ {S : Type 0} (ops : ProxyOps S) (styled : Json → Text) where
  -- One loop of EventPolling.
  unfoldable pub poll_events : EventMap → Reach S → Option (EventMap × Reach S)
  poll_events [] r = some ([], r)
  poll_events ((name, none) ∷ m) r = none
  poll_events ((name, some e) ∷ m) r =
      let s = sniffing_plc_event ops styled (e, r) in put_back name s.0 (poll_events m s.1)

  -- The second loop of EventPolling, and its end.
  abbrev pub poll_stations : Machine S → Option (EventMap × Reach S) → Option (Machine S)
  poll_stations m none = none
  poll_stations m (some (main, r)) = polled m main (poll_events m.stations_events r)

  -- EventPolling.
  unfoldable pub event_polling : Machine S → Option (Machine S)
  unfolding poll_events
  event_polling m = poll_stations m (poll_events m.main_events m.reach)

  -- OnTimer, with the time that GetTime gives.
  unfoldable pub on_timer : ℕ → ℕ → Machine S → Option (Machine S)
  unfolding event_polling
  on_timer tid time m =
      if tid == m.value_polling
      then event_polling m
      else if tid == m.heartbeat
      then some (beat ops time (find_key (codes "HeartBeat") m.main_events) m)
      else some m
