-- ===== src/Command/Process.antt =====
-- What the ProcessCmd of the transcations in transcation/Transcation.cpp do with a command that
-- they know: it runs on a device, or it is answered.
use dev_hub.Base.{
  ℕ, ◌≡◌, ◌≢◌, ◌⊎◌, refl, sym, ap, ◌∙◌, inl, inr, Bool, true, false, Option, none, some, [], ◌∷◌,
  ◌++◌, contains, Text, codes, text_eq, text_eq_self, text_eq_iff, ℤ, pos, show_int, Json, obj,
  Fields, arith, Bool-cases, Option-cases,
}
use dev_hub.Task.{
  task_idle, task_run, CommunicationFormat, format_json, format_common, Task, World, error_format,
  error_param, error_devopen, nothing_to_do, cancel_timer_id, stop_response_timer, finish,
  build_comm_response, build_response, response, update,
}
use dev_hub.Command.{
  Kind, solder, balance, glue, Transcation, write_data, select_peripherals, as_int, first_item,
  is_open, is_null_or_array, Request, Devices, reply, process_spit, process_balance_qp,
  process_balance_cl, process_cmd,
}

pub contains_comma : (xs ys : Text) → contains 44 (xs ++ (44 ∷ ys)) ≡ true
contains_comma [] ys = refl
contains_comma (x ∷ xs) ys = ground (arith, contains_comma xs ys)

build_comm_response-other :
    (e : ℤ) (t : Task) (cmd : Text) (n : ℤ) → build_comm_response e t cmd n ≢ nothing_to_do
unfolding build_comm_response
build_comm_response-other e t cmd n h =
    let rest =
      t.station_id
      ++ (44 ∷ (t.slot_id ++ (44 ∷ (cmd ++ (44 ∷ (show_int e ++ (44 ∷ show_int n))))))) in
    let same : true ≡ false = sym (contains_comma t.machine_id rest) ∙ ap (contains 44) h in
    ground arith

-- JSON text starts with a brace.
abbrev pub WritesObjects : (Json → Text) → Type 0
WritesObjects styled = (fs : Fields) → styled (obj fs) ≢ nothing_to_do

response-other :
    (styled : Json → Text)
    → WritesObjects styled
    → (e : ℤ) (t : Task) (cmd : Text) (n : ℤ) → response styled e t cmd n ≢ nothing_to_do
unfolding response build_response build_comm_response
response-other styled h e t cmd n z = go t.format refl
  where
    go : (f : CommunicationFormat) → t.format ≡ f → ⊥
    go format_json k =
        let same : response styled e t cmd n ≡ build_response styled e cmd n =
          rw (k, response) refl in
        h _ (sym same ∙ z)
    go format_common k =
        let same : response styled e t cmd n ≡ build_comm_response e t cmd n =
          rw (k, response) refl in
        build_comm_response-other e t cmd n (sym same ∙ z)

-- The task runs on a device and nothing was sent, or it is idle and one message was sent.
abbrev pub Settled : Task × World Devices → Task × World Devices → Type 0
Settled s x =
    ((x.0.status ≡ task_run) × (x.1.sent ≡ s.1.sent))
    ⊎ ((x.0.status ≡ task_idle) × ((m : Text) × (x.1.sent ≡ s.1.sent ++ (m ∷ []))))

pub stop_response_timer-sent :
    {D : Type 0} (t : Task) (w : World D) → (stop_response_timer t w).sent ≡ w.sent
unfolding stop_response_timer
stop_response_timer-sent t w = go t.response_timeout
  where
    go : (o : Option ℕ) → (cancel_timer_id o w).sent ≡ w.sent
    go none = refl
    go (some tid) = refl

pub false_of_not : (b : Bool) → (b ≡ true → ⊥) → b ≡ false
false_of_not true h = absurd (h refl)
false_of_not false h = refl

-- What a branch of ProcessCmd gives.
abbrev pub Settles : Task × World Devices → Option (Task × World Devices) → Type 0
Settles s o = (x : Task × World Devices) × (o ≡ some x) × Settled s x

-- A parameter that is null or an array starts with a number, or has nothing or a truth value.
abbrev pub HasNumber : Request → Type 0
HasNumber r = (n : ℤ) × (as_int (first_item r.param) ≡ some n)

module _ (styled : Json → Text) (writes : WritesObjects styled) (tc : Transcation) where
  -- A reply in a state that differs from the first one in what was done before.
  reply-Settled :
      (e n : ℤ) (cmd : Text) (s s' : Task × World Devices)
      → s'.1.sent ≡ s.1.sent
      → Settled s (reply styled e cmd n tc.id s')
  unfolding reply update finish
  reply-Settled e n cmd s s' k =
      let msg = response styled e s'.0 cmd n in
      let other : text_eq msg nothing_to_do ≡ false =
        false_of_not (text_eq msg nothing_to_do)
          (λ z. response-other styled writes e s'.0 cmd n ((text_eq_iff msg nothing_to_do).0 z)) in
      rw other (
        inr (
          refl,
          (
            msg,
            stop_response_timer-sent s'.0 (record s'.1 { sent = s'.1.sent ++ (msg ∷ []) })
                ∙ ap (λ l. l ++ (msg ∷ [])) k,
          ),
        ))

  process_spit-Settles :
      (r : Request) (s : Task × World Devices)
      → r.cmd ≡ codes "GetSpitParam"
      → HasNumber r
      → Settles s (process_spit styled tc r s)
  unfolding process_spit
  process_spit-Settles r s k (n, z) =
      rw k rw (text_eq_self (codes "GetSpitParam")) (elim (Bool-cases (is_null_or_array r.param)) [
        | inr y ↦
            rw y (_, refl, reply-Settled error_format r.req_id (codes "GetSpitParam") s s refl)
        | inl y ↦ rw y rw z (elim (Option-cases (select_peripherals n tc.name tc.peripherals)) [
          | inl x ↦ rw x (
            _,
            refl,
            reply-Settled error_param r.req_id (codes "GetSpitParam") s
                (record s.0 { req_id = r.req_id; cmd_name = codes "GetSpitParam" }, s.1) refl,
          )
          | inr (p, x) ↦ rw x (_, refl, inl (refl, refl))
        ])
      ])

  process_balance_qp-Settles :
      (r : Request) (s : Task × World Devices)
      → HasNumber r
      → Settles s (process_balance_qp styled tc r s)
  unfolding process_balance_qp
  process_balance_qp-Settles r s (n, z) = elim (Bool-cases (is_null_or_array r.param)) [
    | inr y ↦ rw y (_, refl, reply-Settled error_format r.req_id (codes "BalanceQp") s s refl)
    | inl y ↦ rw y rw z (elim (Option-cases (select_peripherals n tc.name tc.peripherals)) [
      | inl x ↦ rw x (_, refl, reply-Settled error_param r.req_id (codes "BalanceQp") s s refl)
      | inr (p, x) ↦ rw x (elim (Bool-cases (is_open p)) [
        | inl v ↦ rw v (
          _,
          refl,
          reply-Settled (pos 0) r.req_id (codes "BalanceQp") s
              (s.0, record s.1 { devices = s.1.devices ++ (write_data p.id (codes "%ET") ∷ []) })
              refl,
        )
        | inr v ↦ rw v (_, refl, reply-Settled error_devopen r.req_id (codes "BalanceQp") s s refl)
      ])
    ])
  ]

  process_balance_cl-Settles :
      (r : Request) (s : Task × World Devices)
      → HasNumber r
      → Settles s (process_balance_cl styled tc r s)
  unfolding process_balance_cl
  process_balance_cl-Settles r s (n, z) =
      let s' : Task × World Devices =
        (record s.0 { req_id = r.req_id; cmd_name = codes "BalanceCl" }, s.1) in
      elim (Bool-cases (is_null_or_array r.param)) [
        | inr y ↦ rw y (_, refl, reply-Settled error_format r.req_id (codes "BalanceQp") s s refl)
        | inl y ↦ rw y rw z (elim (Option-cases (select_peripherals n tc.name tc.peripherals)) [
          | inl x ↦ rw x (_, refl, reply-Settled error_param r.req_id (codes "BalanceQp") s s' refl)
          | inr (p, x) ↦ rw x (elim (Bool-cases (is_open p)) [
            | inl v ↦ rw v (_, refl, inl (refl, refl))
            | inr v ↦
                rw v (_, refl, reply-Settled error_devopen r.req_id (codes "BalanceQp") s s' refl)
          ])
        ])
      ]

-- The commands that a transcation's ProcessCmd reacts to.
abbrev pub Knows : Kind → Text → Type 0
Knows solder cmd = cmd ≡ codes "GetSpitParam"
Knows glue cmd = cmd ≡ codes "GetSpitParam"
Knows balance cmd = (cmd ≡ codes "BalanceQp") ⊎ (cmd ≡ codes "BalanceCl")

cl_not_qp : text_eq (codes "BalanceCl") (codes "BalanceQp") ≡ false
unfolding text_eq
cl_not_qp = refl

-- A command that a transcation's ProcessCmd knows, whose parameter is null or starts with nothing, a
-- truth value or a number that the library converts to an `int`: ProcessCmd throws no exception, and after it either the task runs and
-- nothing was sent, or the task is idle and exactly one message was sent.
pub process_cmd-Settles :
    (styled : Json → Text) (writes : WritesObjects styled) (tc : Transcation) (r : Request)
    (s : Task × World Devices)
    → Knows tc.kind r.cmd
    → HasNumber r
    → Settles s (process_cmd styled tc r s)
unfolding process_cmd
process_cmd-Settles styled writes tc r s k h = by_kind tc.kind refl k
  where
    balanced : Knows balance r.cmd → tc.kind ≡ balance → Settles s (process_cmd styled tc r s)
    balanced (inl z) e =
        rw (e, process_cmd) rw z rw (text_eq_self (codes "BalanceQp"))
          (process_balance_qp-Settles styled writes tc r s h)
    balanced (inr z) e =
        rw (e, process_cmd) rw z rw cl_not_qp rw (text_eq_self (codes "BalanceCl"))
          (process_balance_cl-Settles styled writes tc r s h)

    by_kind :
        (kind : Kind) → tc.kind ≡ kind → Knows kind r.cmd → Settles s (process_cmd styled tc r s)
    by_kind solder e z = rw (e, process_cmd) (process_spit-Settles styled writes tc r s z h)
    by_kind glue e z = rw (e, process_cmd) (process_spit-Settles styled writes tc r s z h)
    by_kind balance e z = balanced z e
