-- ===== src/Connection/Tests.antt =====
-- Runs of a connection, and its theorems at concrete inputs.
use mathlib.Core.List.{append_assoc}
use dev_hub.Base.{
  ◌≡◌, refl, true, false, none, some, List, [], ◌∷◌, ◌++◌, Text, codes, pos, length, take, drop,
}
use dev_hub.Connection.{
  SocketLib, opened, closed, disconnected, new_connection, send, sent, on_read, on_write,
  write_left, written, received, failed, close,
}
use dev_hub.Connection.Delivery.{
  Operation, sending, writable, sink_is, IsBuffer, step, run, all_kept, Delivers, run-Delivers,
}
use dev_hub.Connection.Waiting.{HasLeft, send_stays}
use dev_hub.Connection.Connector
use dev_hub.Connection.Connector.{
  new_connector, connecting, cancelling, fired, connect, report, on_connect_result, on_connect,
  delete_event, cancel,
}
use dev_hub.Connection.Reported.{Reports, run-Reports}

-- A socket that takes two bytes at a time and was reset by its peer; the world is the wire.
abbrev pair_lib : SocketLib Text Text
pair_lib = record {
  new_buffer = [];
  get_length = λ b. length b;
  add = λ b s. some (b ++ s);
  write = λ b fd d. (pos (length (take 2 b)), drop 2 b, d ++ take 2 b);
  recv = λ fd n d. (none, d);
  close_socket = λ fd d. d;
  event_add = λ d. (true, d);
  errno = λ d. 104;
}

two_and_rest : (b : Text) → take 2 b ++ drop 2 b ≡ b
two_and_rest [] = refl
two_and_rest (x ∷ []) = refl
two_and_rest (x ∷ y ∷ b) = refl

taken : (x y : Text) → some y ≡ some x → x ≡ y
taken x y e = cc

abbrev pair_laws : IsBuffer pair_lib (λ b. b) (λ d. d)
pair_laws = record {
  added = λ b b' s e. taken b' (b ++ s) e;
  moved = λ b fd d. rw (append_assoc d (take 2 b) (drop 2 b)) (rw (two_and_rest b) refl);
  read = λ fd n d. refl;
  shut = λ fd d. refl;
  waits = λ d. refl;
}

abbrev two_sends : List Operation
two_sends = sending (codes "abc") ∷ sending (codes "de") ∷ writable ∷ []

-- The second Send finds a byte in the buffer and adds the write event.
two_sends-run :
    run pair_lib two_sends (new_connection pair_lib 7) []
    ≡ (opened none 7 true (codes "e"), codes "abcd")
unfolding run step new_connection send sent on_write write_left written
two_sends-run = refl

reset_is_told :
    on_read pair_lib (opened (some 3) 7 false []) [] ≡ (closed none, disconnected 3 104 ∷ [], [])
unfolding on_read received failed close
reset_is_told = refl

run-Delivers_example :
    Delivers
      (λ b. b)
      (λ d. d)
      (codes "x" ++ all_kept pair_lib two_sends (opened (some 3) 7 false (codes "x")) [])
      (run pair_lib two_sends (opened (some 3) 7 false (codes "x")) []).0
      (run pair_lib two_sends (opened (some 3) 7 false (codes "x")) []).1
run-Delivers_example =
    run-Delivers pair_lib (λ b. b) (λ d. d) pair_laws two_sends
      (opened (some 3) 7 false (codes "x")) [] (codes "x") refl

send_stays_example :
    (rest : Text) × ((send pair_lib (codes "abc") (opened none 7 false []) []).2 ++ rest
      ≡ codes "abc")
    × ((run pair_lib
          (writable ∷ sink_is (some 4) ∷ writable ∷ [])
          (send pair_lib (codes "abc") (opened none 7 false []) []).1
          (send pair_lib (codes "abc") (opened none 7 false []) []).2).1
        ≡ (send pair_lib (codes "abc") (opened none 7 false []) []).2)
    × HasLeft
        (λ b. b)
        rest
        (run pair_lib
          (writable ∷ sink_is (some 4) ∷ writable ∷ [])
          (send pair_lib (codes "abc") (opened none 7 false []) []).1
          (send pair_lib (codes "abc") (opened none 7 false []) []).2).0
send_stays_example =
    send_stays pair_lib (λ b. b) (λ d. d) pair_laws (codes "abc") none 7 [] (codes "abc") []
      (writable ∷ sink_is (some 4) ∷ writable ∷ []) refl refl (tt, (tt, (tt, tt)))

-- The second event fires twice, and the connector reports once.
abbrev asked : List Connector.Operation
asked = connecting 5 ∷ fired 5 false ∷ fired 5 false ∷ []

asked-run :
    Connector.run pair_lib asked (new_connector (codes "10.0.0.1") 80 (some 1) false)
    ≡ some (
      record (new_connector (codes "10.0.0.1") 80 (some 1) false) { event = some 5 },
      some (new_connection pair_lib 5) ∷ [],
    )
unfolding Connector.run Connector.step new_connector connect on_connect on_connect_result report
asked-run = refl

run-Reports_example :
    Reports 1 (Connector.run pair_lib asked (new_connector (codes "10.0.0.1") 80 (some 1) false))
unfolding new_connector
run-Reports_example =
    run-Reports pair_lib asked (new_connector (codes "10.0.0.1") 80 (some 1) false)
