-- ===== src/Events/Alarms.antt =====
-- What the alarm list of a report of transcation/ev_respond.cpp holds: the loops over the words
-- and bits against one pass over the offsets.
use dev_hub.Base.{
  ℕ, zero, suc, ◌+◌, ◌-◌, ◌*◌, ◌/◌, ◌%◌, ◌≤◌, ◌<◌, Bool, true, false, Option, none, some, List, [],
  ◌∷◌, ◌++◌, if◌then◌else◌, ◌==◌, ==_iff, get_or, length, Json, ◌≡◌, refl, sym, ap, ◌∙◌, arith, inl,
  inr, Bool-cases, lookup, lookup-insert,
}
use mathlib.Core.Path.{subst}
use mathlib.Core.List.{append_assoc, append-nil}
use dev_hub.Events.{PlcAlarmInfo}
use dev_hub.Events.Sniff.{AlarmMap, alarm_info, bit_set, on_alarm, on_bit, bit_loop, word_loop}

-- The entry of an alarm that is there and enabled.
abbrev pub enabled : Option (Option PlcAlarmInfo) → List Json
enabled none = []
enabled (some none) = []
enabled (some (some a)) = if a.enable then alarm_info a ∷ [] else []

abbrev pub alarm_at : AlarmMap → ℕ → List Json
alarm_at m k = enabled (lookup k m)

-- The offset's bit in the words is set: bit `k % 16` of word `k / 16`, the first word being `i`.
abbrev pub listed : AlarmMap → List ℕ → ℕ → ℕ → List Json
listed m ws i k = if bit_set (get_or ws (k / 16 - i) 0) (k % 16) then alarm_at m k else []

-- The lists of `n` offsets from `start` on, one behind the other.
unfoldable pub collect : (ℕ → List Json) → ℕ → ℕ → List Json
collect f start zero = []
collect f start (suc n) = f start ++ collect f (suc start) n

abbrev pub alarms_of : AlarmMap → List ℕ → List Json
alarms_of m ws = collect (listed m ws 0) 0 (16 * length ws)

pub collect-eq :
    (f g : ℕ → List Json) (start n : ℕ)
    → ((k : ℕ) → start ≤ k → k < start + n → f k ≡ g k)
    → collect f start n ≡ collect g start n
unfolding collect
collect-eq f g start zero h = refl
collect-eq f g start (suc n) h =
    rw
      (
        h start (omega arith) (omega arith),
        collect-eq f g (suc start) n (λ k a b. h k (omega arith) (omega arith)),
      )
      refl

collect-append :
    (f : ℕ → List Json) (a start b : ℕ)
    → collect f start (a + b) ≡ collect f start a ++ collect f (start + a) b
unfolding collect
collect-append f zero start b =
    let e : start + 0 ≡ start = omega arith in let z : 0 + b ≡ b = omega arith in rw (e, z) refl
collect-append f (suc a) start b =
    let e : suc start + a ≡ start + suc a = omega arith in
    let z : suc a + b ≡ suc (a + b) = omega arith in
    rw z (
      ap (λ l. f start ++ l)
        (collect-append f a (suc start) b ∙ ap (λ n. collect f (suc start) a ++ collect f n b) e)
      ∙ sym (append_assoc (f start) (collect f (suc start) a) (collect f (start + suc a) b)))

-- A bit that is set adds the alarm of its offset and changes no alarm.
on_alarm-enabled :
    (x : Option (Option PlcAlarmInfo)) (o : ℕ) (m : AlarmMap) (front : List Json)
    → (on_alarm x o (m, front)).1 ≡ front ++ enabled x
on_alarm-enabled none o m front = sym (append-nil front)
on_alarm-enabled (some none) o m front = sym (append-nil front)
on_alarm-enabled (some (some a)) o m front = elim (Bool-cases a.enable) [
  | inl e ↦ rw e refl
  | inr e ↦ rw e (sym (append-nil front))
]

on_alarm-alarm_at :
    (x : Option (Option PlcAlarmInfo)) (o k : ℕ) (m : AlarmMap) (front : List Json)
    → lookup o m ≡ x
    → alarm_at (on_alarm x o (m, front)).0 k ≡ alarm_at m k
on_alarm-alarm_at (some none) o k m front e = refl
on_alarm-alarm_at (some (some a)) o k m front e = refl
on_alarm-alarm_at none o k m front e = elim (Bool-cases (o == k)) [
  | inl z ↦
      let none_at : lookup k m ≡ none = subst (λ j. lookup j m ≡ none) ((==_iff o k).0 z) e in
      rw (lookup-insert k o none m, z) (sym (ap enabled none_at))
  | inr z ↦ rw (lookup-insert k o none m, z) refl
]

-- One pass over `n` bits of a word, in a map whose alarms are those of `m`.
bit_of : AlarmMap → ℕ → ℕ → List Json
bit_of m w k = if bit_set w (k % 16) then alarm_at m k else []

IsLike : AlarmMap → AlarmMap → Type 0
IsLike m m' = (k : ℕ) → alarm_at m' k ≡ alarm_at m k

bit_step-IsLike :
    (b : Bool) (o : ℕ) (m : AlarmMap) (s : AlarmMap × List Json)
    → IsLike m s.0
    → IsLike m (if b then on_bit o s else s).0
unfolding on_bit IsLike
bit_step-IsLike true o m s h k = on_alarm-alarm_at (lookup o s.0) o k s.0 s.1 refl ∙ h k
bit_step-IsLike false o m s h k = h k

bit_step-alarms :
    (b : Bool) (o : ℕ) (m : AlarmMap) (s : AlarmMap × List Json)
    → IsLike m s.0
    → (if b then on_bit o s else s).1 ≡ s.1 ++ (if b then alarm_at m o else [])
unfolding on_bit IsLike
bit_step-alarms true o m s h = on_alarm-enabled (lookup o s.0) o s.0 s.1 ∙ ap (λ l. s.1 ++ l) (h o)
bit_step-alarms false o m s h = sym (append-nil s.1)

bit_loop-collect :
    (n i j w : ℕ) (m : AlarmMap) (s : AlarmMap × List Json)
    → IsLike m s.0
    → j + n ≤ 16
    → ((bit_loop n i j w s).1 ≡ s.1 ++ collect (bit_of m w) (i * 16 + j) n)
      × IsLike m (bit_loop n i j w s).0
unfolding bit_loop collect bit_of
bit_loop-collect zero i j w m s h k = (sym (append-nil s.1), h)
bit_loop-collect (suc n) i j w m s h k =
    let o = i * 16 + j in
    let b = bit_set w j in
    let t = if b then on_bit o s else s in
    let rest = bit_loop-collect n i (suc j) w m t (bit_step-IsLike b o m s h) (omega arith) in
    let next : i * 16 + suc j ≡ suc o = omega arith in
    let place : o % 16 ≡ j = omega arith in
    (
      rest.0
          ∙ ap (λ l. l ++ collect (bit_of m w) (i * 16 + suc j) n) (bit_step-alarms b o m s h)
          ∙ append_assoc s.1 _ _
          ∙ (rw (next, place) refl),
      rest.1,
    )

word_step :
    (w : ℕ) (ws : List ℕ) (i k : ℕ) (m : AlarmMap)
    → i * 16 ≤ k
    → k < i * 16 + 16
    → bit_of m w k ≡ listed m (w ∷ ws) i k
unfolding bit_of
word_step w ws i k m a b = let e : k / 16 - i ≡ 0 = omega arith in rw e refl

word_skip :
    (w : ℕ) (ws : List ℕ) (i k : ℕ) (m : AlarmMap)
    → suc i * 16 ≤ k
    → listed m ws (suc i) k ≡ listed m (w ∷ ws) i k
word_skip w ws i k m a = let e : k / 16 - i ≡ suc (k / 16 - suc i) = omega arith in rw e refl

collect_none : (f : ℕ → List Json) (start : ℕ) → collect f start 0 ≡ []
unfolding collect
collect_none f start = refl

word_loop-collect :
    (ws : List ℕ) (i : ℕ) (m : AlarmMap) (s : AlarmMap × List Json)
    → IsLike m s.0
    → ((word_loop ws i s).1 ≡ s.1 ++ collect (listed m ws i) (i * 16) (16 * length ws))
      × IsLike m (word_loop ws i s).0
unfolding word_loop
word_loop-collect [] i m s h =
    (sym (append-nil s.1) ∙ ap (λ l. s.1 ++ l) (sym (collect_none (listed m [] i) (i * 16))), h)
word_loop-collect (w ∷ ws) i m s h =
    let bits = bit_loop-collect 16 i 0 w m s h (omega arith) in
    let t = bit_loop 16 i 0 w s in
    let rest = word_loop-collect ws (suc i) m t bits.1 in
    let zero_bit : i * 16 + 0 ≡ i * 16 = omega arith in
    let first =
      collect-eq (bit_of m w) (listed m (w ∷ ws) i) (i * 16) 16
        (λ k a b. word_step w ws i k m a b) in
    let others =
      collect-eq (listed m ws (suc i)) (listed m (w ∷ ws) i) (suc i * 16) (16 * length ws)
        (λ k a b. word_skip w ws i k m a) in
    let size : 16 * suc (length ws) ≡ 16 + 16 * length ws = omega arith in
    let place : suc i * 16 ≡ i * 16 + 16 = omega arith in
    (
      rest.0
          ∙ ap (λ l. l ++ collect (listed m ws (suc i)) (suc i * 16) (16 * length ws)) bits.0
          ∙ append_assoc s.1 _ _
          ∙ ap (λ l. s.1 ++ l)
              (rw
                (
                  zero_bit,
                  first,
                  others,
                  size,
                  collect-append (listed m (w ∷ ws) i) 16 (i * 16) (16 * length ws),
                  place,
                )
                refl),
      rest.1,
    )

-- The loops of Ev_AlarmCode list, in the order of the offsets, the alarms that are in the map,
-- enabled, and whose bit is set, and they change no alarm of the map.
pub word_loop-alarms :
    (ws : List ℕ) (m : AlarmMap)
    → ((word_loop ws 0 (m, [])).1 ≡ alarms_of m ws)
      × ((k : ℕ) → alarm_at (word_loop ws 0 (m, [])).0 k ≡ alarm_at m k)
unfolding IsLike
word_loop-alarms ws m = word_loop-collect ws 0 m (m, []) (λ k. refl)
