-- ===== src/Machine/Director/Addressed.antt =====
-- Which machines of transcation/machine.cpp the director reaches, and that those it makes work.
use dev_hub.Base.{
  ℕ, Bool, true, false, Option, none, some, List, [], ◌∷◌, ◌++◌, if◌then◌else◌, Text, text_eq,
  find_key, assign_key, find_key-assign_key_other, All, Json, ◌≡◌, refl, sym, ap, ◌∙◌,
}
use mathlib.Core.Path.{subst}
use mathlib.Core.List.{append-nil}
use dev_hub.Plc.Proxy.{PlcProtocol, get_plc_proxy}
use dev_hub.Events.{ProxyOps, EvPara, Event}
use dev_hub.Machine.{Machine, push_main_event, push_stations_event}
use dev_hub.Machine.Polling.{IsPollableAfter, ticks, ticks-IsPollable}
use dev_hub.Machine.Build.{
  build_event, LineMachine, Wiring, new_machine, machine_for, build_machine, push_made,
  build_main_device_profile, build_station, build_custom_events,
}
use dev_hub.Machine.Profile.{BeatsIn, profile_beats-Good, custom-Good}
use dev_hub.Machine.Director.{
  Machines, LineSection, no_name, finished, enter, construct_machine, flash_machines,
  flash_sections, write_to, write_machine_data,
}

module _ {S : Type 0} where
  -- ConstructMachine of a profile with a known protocol and an event HeartBeat among the main
  -- events succeeds, and the machine that it enters comes through any ticks of its timers: no NULL
  -- is dereferenced.
  pub constructed-IsPollable :
      (ops : ProxyOps S) (styled : Json → Text) (ts : List (ℕ × ℕ)) (w : Wiring S) (section : Text)
      (lm : LineMachine) (ms : Machines S) (p : PlcProtocol)
      → get_plc_proxy lm.protocol ≡ some p
      → BeatsIn lm.main_events
      → (m : Machine S) × (construct_machine w section lm ms
          ≡ some (assign_key (section ++ m.name) (some m) ms))
        × IsPollableAfter ops styled (ticks ops styled ts m)
  unfolding construct_machine build_machine new_machine
  constructed-IsPollable ops styled ts w section lm ms p e h =
      let m0 = new_machine w section lm p in
      let m = finished section lm m0 in
      (
        m,
        ap (λ o. enter section lm ms (machine_for w section lm o)) e,
        ticks-IsPollable ops styled ts m
            (profile_beats-Good lm.main_events _ h (custom-Good lm.stations m0 (tt, tt))),
      )

  -- No step of the construction gives a machine a name.
  push_made-name :
      (name : Text) (o : Option Event) (m : Machine S)
      → ((push_made push_main_event name o m).name ≡ m.name)
        × ((push_made push_stations_event name o m).name ≡ m.name)
  unfolding push_main_event push_stations_event
  push_made-name name none m = (refl, refl)
  push_made-name name (some e) m = (refl, refl)

  profile-name : (ps : List EvPara) (m : Machine S) → (build_main_device_profile ps m).name ≡ m.name
  unfolding build_main_device_profile
  profile-name [] m = refl
  profile-name (p ∷ ps) m = profile-name ps _ ∙ (push_made-name p.event_name (build_event p) m).0

  station-name : (ps : List EvPara) (m : Machine S) → (build_station ps m).name ≡ m.name
  unfolding build_station
  station-name [] m = refl
  station-name (p ∷ ps) m = station-name ps _ ∙ (push_made-name p.event_name (build_event p) m).1

  custom-name : (ss : List (List EvPara)) (m : Machine S) → (build_custom_events ss m).name ≡ m.name
  unfolding build_custom_events
  custom-name [] m = refl
  custom-name (s ∷ ss) m = custom-name ss _ ∙ station-name s m

  -- A key that is not in the map.
  abbrev IsFree : Text → Option (Machines S) → Type 0
  IsFree key none = Unit
  IsFree key (some ms) = find_key key ms ≡ none

  construct_machine-IsFree :
      (w : Wiring S) (key section : Text) (lm : LineMachine) (ms : Machines S)
      (o : Option PlcProtocol)
      → text_eq section key ≡ false
      → find_key key ms ≡ none
      → IsFree key (enter section lm ms (machine_for w section lm o))
  unfolding new_machine
  construct_machine-IsFree w key section lm ms none n h = tt
  construct_machine-IsFree w key section lm ms (some p) n h =
      let m = finished section lm (new_machine w section lm p) in
      let name_empty : m.name ≡ [] = profile-name lm.main_events _ ∙ custom-name lm.stations _ in
      let same : section ++ m.name ≡ section =
        ap (λ x. section ++ x) name_empty ∙ append-nil section in
      find_key-assign_key_other key (section ++ m.name) (some m) ms
        (subst (λ x. text_eq x key ≡ false) (sym same) n)
      ∙ h

  either-IsFree :
      (key : Text) (b : Bool) (o o' : Option (Machines S))
      → IsFree key o
      → IsFree key o'
      → IsFree key (if b then o else o')
  either-IsFree key true o o' h h' = h
  either-IsFree key false o o' h h' = h'

  then-IsFree :
      (key : Text) (o : Option (Machines S)) (f : Machines S → Option (Machines S))
      → IsFree key o
      → ((ms : Machines S) → find_key key ms ≡ none → IsFree key (f ms))
      → IsFree key (elim o [ none ↦ none | some ms ↦ f ms ])
  then-IsFree key none f h g = tt
  then-IsFree key (some ms) f h g = g ms h

  flash_machines-IsFree :
      (w : Wiring S) (key section : Text) (lms : List LineMachine) (ms : Machines S)
      → text_eq section key ≡ false
      → find_key key ms ≡ none
      → IsFree key (flash_machines w section lms ms)
  unfolding flash_machines construct_machine build_machine
  flash_machines-IsFree w key section [] ms n h = h
  flash_machines-IsFree w key section (lm ∷ lms) ms n h =
      let rest = flash_machines-IsFree w key section lms in
      then-IsFree key _ (flash_machines w section lms)
        (either-IsFree key _ _ (some ms)
          (construct_machine-IsFree w key section lm ms (get_plc_proxy lm.protocol) n h) h)
        (λ ms' h'. rest ms' n h')

  flash_sections-IsFree :
      (w : Wiring S) (key : Text) (ss : List LineSection) (ms : Machines S)
      → All (λ s. text_eq s.name key ≡ false) ss
      → find_key key ms ≡ none
      → IsFree key (flash_sections w ss ms)
  unfolding flash_sections
  flash_sections-IsFree w key [] ms n h = h
  flash_sections-IsFree w key (s ∷ ss) ms n h =
      let rest = flash_sections-IsFree w key ss in
      then-IsFree key _ (flash_sections w ss)
        (flash_machines-IsFree w key s.name s.machines ms n.0 h) (λ ms' h'. rest ms' n.1 h')

  -- After the machines of all sections were made, WriteMachineData for a section and a machine
  -- finds nothing, unless a section is named like the two names together: it returns the error
  -- number, whatever machines there are.
  pub write_machine_data_unaddressed :
      (w : Wiring S) (ss : List LineSection) (ms : Machines S) (section machine event : Text)
      → flash_sections w ss [] ≡ some ms
      → All (λ s. text_eq s.name (section ++ machine) ≡ false) ss
      → (ms' : Machines S) × (write_machine_data section machine event ms
          ≡ some (some no_name, ms'))
  unfolding write_machine_data
  write_machine_data_unaddressed w ss ms section machine event e n =
      let key = section ++ machine in
      let free : find_key key ms ≡ none =
        subst (IsFree key) e (flash_sections-IsFree w key ss [] n refl) in
      (_, ap (λ o. write_to key event o ms) free)
