-- ===== src/Machine/Director.antt =====
-- Director and MachineScheduler of transcation/machine.cpp: which machines there are, and what a
-- frame of the upper computer does with them. A machine has its timers whether the director's map
-- holds it or not. `none` as a result says that a pointer to nothing was used, that a function
-- without a value was relied on, or that the JSON library threw an exception.
pub mod Addressed
use dev_hub.Base.{
  ℕ, Bool, true, false, ◌&&◌, Option, none, some, List, [], ◌∷◌, ◌++◌, if◌then◌else◌, Text, codes,
  text_eq, find_key, assign_key, ℤ, negsuc, Json, null, bool, num, real, fits_int, str, arr, obj,
  Items, nil, cons, Fields, end, field,
}
use dev_hub.Command.{member}
use dev_hub.Events.{Event}
use dev_hub.Machine.{Machine, get_event}
use dev_hub.Machine.Build.{
  LineMachine, Wiring, build_machine, build_main_device_profile, build_custom_events,
}

-- m_machines.
abbrev pub Machines : Type 0 → Type 0
Machines S = List (Text × Option (Machine S))

-- LineSection_t.
pub record LineSection : Type 0 where
  pub name : Text
  pub machines : List LineMachine

-- NO_SECTIONNAME_OR_MACINENAME.
abbrev pub no_name : ℤ
no_name = negsuc 0

module _ {S : Type 0} where
  -- ConstructMachine of a machine that is not NULL.
  abbrev pub finished : Text → LineMachine → Machine S → Machine S
  finished section lm m =
      build_main_device_profile lm.main_events (build_custom_events lm.stations m)

  abbrev pub enter : Text → LineMachine → Machines S → Option (Machine S) → Option (Machines S)
  enter section lm ms none = none
  enter section lm ms (some m) =
      let m' = finished section lm m in some (assign_key (section ++ m'.name) (some m') ms)

  unfoldable pub construct_machine :
      Wiring S → Text → LineMachine → Machines S → Option (Machines S)
  unfolding build_machine
  construct_machine w section lm ms = enter section lm ms (build_machine w section lm)

  -- The loops of FlashLineMachineList.
  unfoldable pub flash_machines :
      Wiring S → Text → List LineMachine → Machines S → Option (Machines S)
  unfolding construct_machine
  flash_machines w section [] ms = some ms
  flash_machines w section (lm ∷ lms) ms =
      elim (if text_eq lm.device_type (codes "PLC") && lm.enable
        then construct_machine w section lm ms
        else some ms) [ none ↦ none | some ms' ↦ flash_machines w section lms ms' ]

  unfoldable pub flash_sections : Wiring S → List LineSection → Machines S → Option (Machines S)
  unfolding flash_machines
  flash_sections w [] ms = some ms
  flash_sections w (s ∷ ss) ms = elim (flash_machines w s.name s.machines ms) [
    | none ↦ none
    | some ms' ↦ flash_sections w ss ms'
  ]

  -- SendEapData of a JSON value does nothing, in Event and in the subclasses that override it.
  abbrev pub send_json : Option (Option Event) → Machines S → Option (Option ℤ × Machines S)
  send_json none ms = none
  send_json (some none) ms = none
  send_json (some (some e)) ms = some (none, ms)

  -- WriteMachineData: `m_machines[…]` enters NULL for a key that is missing. After SendEapData no
  -- value is returned.
  abbrev pub write_to :
      Text → Text → Option (Option (Machine S)) → Machines S → Option (Option ℤ × Machines S)
  write_to key event none ms = some (some no_name, assign_key key none ms)
  write_to key event (some none) ms = some (some no_name, ms)
  write_to key event (some (some m)) ms = send_json (get_event event m) ms

  unfoldable pub write_machine_data :
      Text → Text → Text → Machines S → Option (Option ℤ × Machines S)
  unfolding get_event
  write_machine_data section machine event ms =
      let key = section ++ machine in write_to key event (find_key key ms) ms

-- The elements that `size()` counts and `[i]` gives; indexing an object is an exception.
abbrev pub elements : Json → Option Items
elements (arr items) = some items
elements (obj (field k v fs)) = none
elements (obj end) = some nil
elements null = some nil
elements (bool b) = some nil
elements (num n) = some nil
elements (real i n text) = some nil
elements (str s) = some nil

-- `!v["Name"].isNull() && v["Name"].isString()`, with the string.
abbrev pub string_of : Json → Option Text
string_of (str s) = some s
string_of _ = none

abbrev pub is_null : Json → Bool
is_null null = true
is_null _ = false

abbrev pub is_int : Json → Bool
is_int (num n) = fits_int n
is_int (real i n text) = i
is_int _ = false

module _ {S : Type 0} where
  -- The innermost loop: the events.
  unfoldable pub on_events : Text → Text → Items → Machines S → Option (Machines S)
  unfolding write_machine_data
  on_events section machine nil ms = some ms
  on_events section machine (cons ev evs) ms = elim (member (codes "Name") ev) [
    | none ↦ none
    | some name ↦ elim (string_of name) [
      | none ↦ on_events section machine evs ms
      | some event ↦ elim (write_machine_data section machine event ms) [
        | none ↦ none
        | some (code, ms') ↦ on_events section machine evs ms'
      ]
    ]
  ]

  -- The loop over the machines; the events are those of the section's value.
  unfoldable pub on_machines : Text → Json → Items → Machines S → Option (Machines S)
  unfolding on_events
  on_machines section event_list nil ms = some ms
  on_machines section event_list (cons mc mcs) ms = elim (member (codes "Name") mc) [
    | none ↦ none
    | some name ↦ elim (string_of name) [
      | none ↦ on_machines section event_list mcs ms
      | some machine ↦ elim (elements event_list) [
        | none ↦ none
        | some evs ↦ elim (on_events section machine evs ms) [
          | none ↦ none
          | some ms' ↦ on_machines section event_list mcs ms'
        ]
      ]
    ]
  ]

  -- The loop over the sections.
  unfoldable pub on_sections : Items → Machines S → Option (Machines S)
  unfolding on_machines
  on_sections nil ms = some ms
  on_sections (cons s ss) ms = elim (member (codes "Name") s) [
    | none ↦ none
    | some name ↦ elim (string_of name) [
      | none ↦ on_sections ss ms
      | some section ↦ elim (member (codes "MachineList") s) [
        | none ↦ none
        | some machine_list ↦ elim (elements machine_list) [
          | none ↦ none
          | some mcs ↦ elim (member (codes "EventList") s) [
            | none ↦ none
            | some event_list ↦ elim (on_machines section event_list mcs ms) [
              | none ↦ none
              | some ms' ↦ on_sections ss ms'
            ]
          ]
        ]
      ]
    ]
  ]

  -- What follows when `SequenceID` is an integer.
  abbrev pub on_root : Json → Machines S → Option (Option Bool × Machines S)
  on_root null ms = some (some false, ms)
  on_root section_list ms = elim (elements section_list) [
    | none ↦ none
    | some ss ↦ elim (on_sections ss ms) [ none ↦ none | some ms' ↦ some (none, ms') ]
  ]

  -- Director::OnFrame: false for a frame without `SequenceID` or `SectionList`; for the others,
  -- and for a text that does not parse, no value is returned.
  unfoldable pub on_frame :
      (Text → Option Json) → Text → Machines S → Option (Option Bool × Machines S)
  unfolding on_sections
  on_frame parse frame ms = elim (parse frame) [
    | none ↦ some (none, ms)
    | some root ↦ elim root [
      | obj fs ↦ elim (member (codes "SequenceID") (obj fs)) [
        | none ↦ none
        | some id ↦
            if is_int id
            then elim (member (codes "SectionList") (obj fs)) [
              | none ↦ none
              | some section_list ↦ on_root section_list ms
            ]
            else some (some false, ms)
      ]
      | _ ↦ some (some false, ms)
    ]
  ]
