-- ===== src/Plc/Reconnect.antt =====
-- A FinsPlcProxy of transcation/PlcProxy.cpp over sequences of its operations: its handle, its
-- contex, and how the reconnect timer gets the link back.
use dev_hub.Base.{
  ℕ, Bool, true, false, Option, none, some, List, [], ◌∷◌, ◌++◌, ◌==◌, ==_self, Text, ◌≡◌, ◌≢◌, ◌/◌,
  refl, inl, inr, arith, Bool-cases,
}
use mathlib.Core.Path.{subst}
use dev_hub.Plc.{ConnectionStatus, connect_ok, connect_no, FinsLib}
use dev_hub.Plc.Proxy.{
  Contex, PlcProxy, new_proxy, fins_disconnect, fins_connected, fins_plc_connect, fins_write_worlds,
  fins_read_done, fins_read_worlds, fins_on_timer,
}
use dev_hub.Plc.Timeout.{Connects}

pub data Operation : Type 0 where
  plc_connect : Option Contex → Operation
  plc_write : Text → List ℕ → ℕ → Operation
  plc_read : Text → ℕ → Operation
  tick : ℕ → Operation

abbrev pub proxy_at : {H : Type 0} → ℕ → ConnectionStatus → Option H → Option Contex → PlcProxy H
proxy_at r c h x = record { reconnect = r; connection_status = c; handle = h; contex = x }

-- The handle goes with the status, and a handle with a contex.
abbrev pub IsSound : {H : Type 0} → ConnectionStatus → Option H → Option Contex → Type 0
IsSound connect_ok (some h) (some mc) = Unit
IsSound connect_ok (some h) none = ⊥
IsSound connect_ok none x = ⊥
IsSound connect_no none x = Unit
IsSound connect_no (some h) x = ⊥

-- With `true`: there is a contex.
abbrev pub Has : Bool → Option Contex → Type 0
Has false x = Unit
Has true (some mc) = Unit
Has true none = ⊥

-- A proxy whose reconnect timer is `n`.
abbrev pub IsSoundProxy : {H : Type 0} → ℕ → Bool → PlcProxy H → Type 0
IsSoundProxy n b p =
    (p.reconnect ≡ n) × IsSound p.connection_status p.handle p.contex × Has b p.contex

module _ {D H : Type 0} (lib : FinsLib D H) where
  unfoldable pub apply : Operation → PlcProxy H × D → PlcProxy H × D
  apply (plc_connect mc) (p, d) = let (ret, p', d') = fins_plc_connect lib mc p d in (p', d')
  apply (plc_write addr bytes len) (p, d) =
      let (ret, p', d') = fins_write_worlds lib addr bytes len p d in (p', d')
  apply (plc_read addr len) (p, d) =
      let (ret, buf, p', d') = fins_read_worlds lib addr len p d in (p', d')
  apply (tick tid) (p, d) = fins_on_timer lib tid p d

  unfoldable pub apply_all : List Operation → PlcProxy H × D → PlcProxy H × D
  apply_all [] s = s
  apply_all (o ∷ os) s = apply_all os (apply o s)

  fins_connected-IsSoundProxy :
      (r : Option H × Bool × D) (n k : ℕ) (b : Bool) (mc : Contex)
      → k ≡ n
      → Has b (some mc)
      → IsSoundProxy n b (fins_connected lib r (proxy_at k connect_no none (some mc))).1
  fins_connected-IsSoundProxy (some h, true, d) n k b mc e i = (e, tt, i)
  fins_connected-IsSoundProxy (some h, false, d) n k b mc e i = (e, tt, i)
  fins_connected-IsSoundProxy (none, o, d) n k b mc e i = (e, tt, i)

  -- Whether there was a contex or not, a PlcConnect leaves one.
  plc_connect-IsSoundProxy_at :
      (mc : Contex) (n k : ℕ) (b : Bool) (c : ConnectionStatus) (h : Option H) (x : Option Contex)
      (d : D)
      → IsSoundProxy n false (proxy_at k c h x)
      → Has b (some mc)
      → IsSoundProxy n b (fins_plc_connect lib (some mc) (proxy_at k c h x) d).1
  unfolding fins_plc_connect
  plc_connect-IsSoundProxy_at mc n k b connect_ok (some h) x d s i = (s.0, tt, i)
  plc_connect-IsSoundProxy_at mc n k b connect_ok none x d s i = elim s.1 [ ]
  plc_connect-IsSoundProxy_at mc n k b connect_no (some h) x d s i = elim s.1 [ ]
  plc_connect-IsSoundProxy_at mc n k b connect_no none x d s i =
      fins_connected-IsSoundProxy (lib.tcp_connect mc.ip mc.port d) n k b mc s.0 i

  Has-some : (b : Bool) (mc : Contex) → Has b (some mc)
  Has-some true mc = tt
  Has-some false mc = tt

  plc_connect-IsSoundProxy :
      (mc : Contex) (n : ℕ) (b c : Bool) (p : PlcProxy H) (d : D)
      → IsSoundProxy n c p
      → IsSoundProxy n b (fins_plc_connect lib (some mc) p d).1
  plc_connect-IsSoundProxy mc n b c p d s =
      plc_connect-IsSoundProxy_at mc n p.reconnect b p.connection_status p.handle p.contex d
        (s.0, s.1, tt) (Has-some b mc)

  tick-IsSoundProxy_at :
      (tid n k : ℕ) (b : Bool) (c : ConnectionStatus) (h : Option H) (x : Option Contex) (d : D)
      → IsSoundProxy n b (proxy_at k c h x)
      → IsSoundProxy n b (fins_on_timer lib tid (proxy_at k c h x) d).0
  unfolding fins_on_timer
  tick-IsSoundProxy_at tid n k b c (some h) x d s = elim (Bool-cases (tid == k)) [
    | inl e ↦ rw e s
    | inr e ↦ rw e s
  ]
  tick-IsSoundProxy_at tid n k b c none none d s = elim (Bool-cases (tid == k)) [
    | inl e ↦ rw e s
    | inr e ↦ rw e s
  ]
  tick-IsSoundProxy_at tid n k b c none (some mc) d s = elim (Bool-cases (tid == k)) [
    | inl e ↦ rw e (plc_connect-IsSoundProxy mc n b b (proxy_at k c none (some mc)) d s)
    | inr e ↦ rw e s
  ]

  read_done-IsSoundProxy :
      (r : Option (List ℕ)) (n : ℕ) (b : Bool) (p : PlcProxy H) (d : D)
      → IsSoundProxy n b p
      → IsSoundProxy n b (fins_read_done lib r p d).2
  unfolding fins_disconnect
  read_done-IsSoundProxy (some buf) n b p d s = s
  read_done-IsSoundProxy none n b p d s = (s.0, tt, s.2)

  apply-IsSoundProxy :
      (o : Operation) (n : ℕ) (b : Bool) (p : PlcProxy H) (d : D)
      → IsSoundProxy n b p
      → IsSoundProxy n b (apply o (p, d)).0
  unfolding apply fins_write_worlds fins_read_worlds fins_disconnect fins_plc_connect
  apply-IsSoundProxy (plc_connect none) n b p d s = s
  apply-IsSoundProxy (plc_connect (some mc)) n b p d s = plc_connect-IsSoundProxy mc n b b p d s
  apply-IsSoundProxy (plc_write addr bytes len) n b p d s =
      elim (Bool-cases (lib.write_word p.handle addr bytes len d).0) [
        | inl z ↦ rw z s
        | inr z ↦ rw z (s.0, tt, s.2)
      ]
  apply-IsSoundProxy (plc_read addr len) n b p d s =
      let (bytes, d') = lib.read_word p.handle addr (len / 2) d in
      read_done-IsSoundProxy bytes n b p d' s
  apply-IsSoundProxy (tick tid) n b p d s =
      tick-IsSoundProxy_at tid n p.reconnect b p.connection_status p.handle p.contex d s

  apply_all-IsSoundProxy :
      (os : List Operation) (n : ℕ) (b : Bool) (s : PlcProxy H × D)
      → IsSoundProxy n b s.0
      → IsSoundProxy n b (apply_all os s).0
  unfolding apply_all
  apply_all-IsSoundProxy [] n b s h = h
  apply_all-IsSoundProxy (o ∷ os) n b s h =
      apply_all-IsSoundProxy os n b (apply o s) (apply-IsSoundProxy o n b s.0 s.1 h)

  apply_all-append :
      (os ps : List Operation) (s : PlcProxy H × D)
      → apply_all (os ++ ps) s ≡ apply_all ps (apply_all os s)
  unfolding apply_all
  apply_all-append [] ps s = refl
  apply_all-append (o ∷ os) ps s = apply_all-append os ps (apply o s)

  -- A sound proxy with a contex is connected after a tick of its timer, when connecting succeeds.
  tick-connected_at :
      (dial : Text → ℕ → D → H × D)
      → Connects lib dial
      → (n k : ℕ) (c : ConnectionStatus) (h : Option H) (x : Option Contex) (d : D)
      → IsSoundProxy n true (proxy_at k c h x)
      → (fins_on_timer lib n (proxy_at k c h x) d).0.connection_status ≡ connect_ok
  unfolding fins_on_timer fins_plc_connect
  tick-connected_at dial up n k connect_ok (some h) (some mc) d s = rw (s.0, ==_self n) refl
  tick-connected_at dial up n k connect_ok (some h) none d s = elim s.1 [ ]
  tick-connected_at dial up n k connect_ok none x d s = elim s.1 [ ]
  tick-connected_at dial up n k connect_no (some h) x d s = elim s.1 [ ]
  tick-connected_at dial up n k connect_no none none d s = elim s.2 [ ]
  tick-connected_at dial up n k connect_no none (some mc) d s =
      rw (s.0, ==_self n, up mc.ip mc.port d) refl

  connected-handle :
      (h : Option H) (x : Option Contex) (c : ConnectionStatus)
      → c ≡ connect_ok
      → IsSound c h x
      → h ≢ none
  connected-handle h x c e s = some_handle h (subst (λ k. IsSound k h x) e s)
    where
      some_handle : (k : Option H) → IsSound connect_ok k x → k ≢ none
      some_handle (some j) i = ground arith
      some_handle none i = elim i [ ]

  tick-connected :
      (dial : Text → ℕ → D → H × D)
      → Connects lib dial
      → (n : ℕ) (s : PlcProxy H × D) → IsSoundProxy n true s.0
      → ((apply (tick n) s).0.connection_status ≡ connect_ok) × ((apply (tick n) s).0.handle ≢ none)
  unfolding apply
  tick-connected dial up n s i =
      let p = s.0 in
      let ok =
        tick-connected_at dial up n p.reconnect p.connection_status p.handle p.contex s.1 i in
      let q = apply (tick n) s in
      (
        ok,
        connected-handle q.0.handle q.0.contex q.0.connection_status ok
            (apply-IsSoundProxy (tick n) n true p s.1 i).1,
      )

  -- Once PlcConnect got a contex, whatever was done with the proxy before and after that, and
  -- whatever libfins answered, after a tick of the reconnect timer with a library that connects
  -- the proxy is connected and has a handle.
  pub proxy_reconnects :
      (dial : Text → ℕ → D → H × D)
      → Connects lib dial
      → (before after : List Operation) (mc : Contex) (n : ℕ) (d : D)
      → let p =
          (apply
            (tick n)
            (apply_all (before ++ (plc_connect (some mc) ∷ after)) (new_proxy n, d))).0 in
        (p.connection_status ≡ connect_ok) × (p.handle ≢ none)
  unfolding apply_all new_proxy apply
  proxy_reconnects dial up before after mc n d =
      let s = apply_all before (new_proxy n, d) in
      let i = apply_all-IsSoundProxy before n false (new_proxy n, d) (refl, tt, tt) in
      let t = apply (plc_connect (some mc)) s in
      let j =
        apply_all-IsSoundProxy after n true t
          (plc_connect-IsSoundProxy mc n true false s.0 s.1 i) in
      rw (apply_all-append before (plc_connect (some mc) ∷ after) (new_proxy n, d))
        (tick-connected dial up n (apply_all after t) j)
