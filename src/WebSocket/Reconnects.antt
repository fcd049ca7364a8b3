-- ===== src/WebSocket/Reconnects.antt =====
-- How the loop that reconnects ends when no try opens.
use bt_api_base.Prelude.{
  ℕ, zero, suc, ◌+◌, ◌≤◌, ◌<◌, String, Bool, true, false, Option, some, List, [], ◌∷◌, ◌++◌,
  append-nil, ◌≡◌, refl, ap, ◌∙◌, ltb, arith,
}
use bt_api_base.WebSocket.Config.{WebSocketConfig}
use bt_api_base.WebSocket.Connection.{WebSocketConnection, connect, close_websocket}
use bt_api_base.WebSocket.Reconnect.{
  Try, refused, wait_time, Reconnection, after_wait, end_turn, attempt, dropped, counted, reconnect,
  handle_disconnect,
}

-- The times slept before `count` tries, after `attempts` of them.
abbrev pub waits_from : WebSocketConfig → ℕ → ℕ → List ℕ
waits_from config attempts zero = []
waits_from config attempts (suc count) =
    wait_time config (suc attempts) ∷ waits_from config (suc attempts) count

-- The tries `i`, `i + 1`, ... of which there are `count` do not open.
abbrev pub AllRefused : (ℕ → Try) → ℕ → ℕ → Type 0
AllRefused tries i zero = Unit
AllRefused tries i (suc count) = (tries i ≡ refused) × AllRefused tries (suc i) count

module _ {X : Type 0} where
  abbrev pub after_waits : List ℕ → Option (Reconnection X) → Option (Reconnection X)
  after_waits [] r = r
  after_waits (w ∷ waits) r = after_wait w (after_waits waits r)

  -- The running connection without a websocket, after `attempts` tries, and `reconnects` in its life.
  abbrev pub down : ℕ → ℕ → WebSocketConnection X → WebSocketConnection X
  down attempts reconnects c = record c {
    has_websocket = false;
    connected = false;
    running = true;
    reconnect_attempts = attempts;
    reconnects = reconnects;
  }

module _ {X : Type 0} (starts_with : String → String → Bool) (lower : String → String)
    (config : WebSocketConfig) where
  one_refused :
      (fuel : ℕ) (tries : ℕ → Try) (i a n : ℕ) (c : WebSocketConnection X)
      → a < config.max_reconnect_attempts
      → tries i ≡ refused
      → reconnect starts_with lower config (suc fuel) tries i (down a n c)
        ≡ after_wait
            (wait_time config (suc a))
            (reconnect starts_with lower config fuel tries (suc i) (down (suc a) (suc n) c))
  unfolding reconnect attempt connect dropped close_websocket
  one_refused fuel tries i a n c room closed =
      let open_ : ltb a config.max_reconnect_attempts ≡ true = ground arith in
      let tried = counted starts_with lower config (down a n c) in
      let after : Try → Option (Reconnection X) = λ t.
        end_turn (wait_time config (suc a)) (attempt starts_with lower config t tried).0
          (attempt starts_with lower config t tried).1
          (reconnect starts_with lower config fuel tries (suc i)
            (dropped starts_with lower config (attempt starts_with lower config t tried).0)) in
      rw (reconnect, open_) (ap after closed)

  move :
      (f g : ℕ) (tries : ℕ → Try) (i j a b n m : ℕ) (c : WebSocketConnection X)
      → f ≡ g
      → i ≡ j
      → a ≡ b
      → n ≡ m
      → reconnect starts_with lower config f tries i (down a n c)
        ≡ reconnect starts_with lower config g tries j (down b m c)
  move f g tries i j a b n m c p q r t =
      ap (λ x. reconnect starts_with lower config x tries i (down a n c)) p
      ∙ ap (λ x. reconnect starts_with lower config g tries x (down a n c)) q
      ∙ ap (λ x. reconnect starts_with lower config g tries j (down x n c)) r
      ∙ ap (λ x. reconnect starts_with lower config g tries j (down b x c)) t

  pub all_refused :
      (count fuel : ℕ) (tries : ℕ → Try) (i a n : ℕ) (c : WebSocketConnection X)
      → a + count ≤ config.max_reconnect_attempts
      → AllRefused tries i count
      → reconnect starts_with lower config (count + fuel) tries i (down a n c)
        ≡ after_waits (waits_from config a count) (
            reconnect starts_with lower config fuel tries
              (i + count)
              (down (a + count) (n + count) c))
  all_refused zero fuel tries i a n c room closed =
      move (0 + fuel) fuel tries i (i + 0) a (a + 0) n (n + 0) c (omega arith) (omega arith)
        (omega arith) (omega arith)
  all_refused (suc count) fuel tries i a n c room closed =
      move (suc count + fuel) (suc (count + fuel)) tries i i a a n n c (omega arith) refl refl refl
      ∙ one_refused (count + fuel) tries i a n c (omega (arith, room)) closed.0
      ∙ ap (after_wait (wait_time config (suc a))) (
          all_refused count fuel tries (suc i) (suc a) (suc n) c (omega (arith, room)) closed.1
          ∙ ap (after_waits (waits_from config (suc a) count)) (
              move fuel fuel tries (suc i + count) (i + suc count) (suc a + count) (a + suc count)
                (suc n + count) (n + suc count) c refl (omega arith) (omega arith) (omega arith)))

  pub after_waits-some :
      (waits : List ℕ) (r : Reconnection X)
      → after_waits waits (some r) ≡ some (record r { waits = waits ++ r.waits })
  after_waits-some [] r = refl
  after_waits-some (w ∷ waits) r = ap (after_wait w) (after_waits-some waits r)

  out_of_tries :
      (fuel : ℕ) (tries : ℕ → Try) (i a n : ℕ) (c : WebSocketConnection X)
      → config.max_reconnect_attempts ≤ a
      → reconnect starts_with lower config (suc fuel) tries i (down a n c)
        ≡ some (record {
          connection = record (down a n c) { running = false };
          waits = [];
          returned = false;
        })
  unfolding reconnect
  out_of_tries fuel tries i a n c spent =
      let closed : ltb a config.max_reconnect_attempts ≡ false = ground arith in
      rw (reconnect, closed) refl

  pub lost :
      (fuel : ℕ) (tries : ℕ → Try) (c : WebSocketConnection X)
      → c.running ≡ true
      → handle_disconnect starts_with lower config fuel tries c
        ≡ reconnect starts_with lower config fuel tries 0 (down c.reconnect_attempts c.reconnects c)
  unfolding handle_disconnect close_websocket
  lost fuel tries c runs =
      ap
        (λ r.
          reconnect starts_with lower config fuel tries 0
            (record (down c.reconnect_attempts c.reconnects c) { running = r }))
        runs

  -- A running connection that is lost after `a` tries, and whose websocket then never opens, gives up,
  -- after as many tries as are left of the maximum: it is then not running, with the tries used up,
  -- and slept before each of them twice as long as before, from the interval on, up to a minute.
  pub gives_up_after :
      (left : ℕ) (tries : ℕ → Try) (c : WebSocketConnection X)
      → c.running ≡ true
      → c.reconnect_attempts + left ≡ config.max_reconnect_attempts
      → AllRefused tries 0 left
      → handle_disconnect starts_with lower config (left + 1) tries c
        ≡ some (record {
          connection = record (down (c.reconnect_attempts + left) (c.reconnects + left) c) {
            running = false;
          };
          waits = waits_from config c.reconnect_attempts left;
          returned = false;
        })
  gives_up_after left tries c runs room closed =
      lost (left + 1) tries c runs
      ∙ all_refused left 1 tries 0 c.reconnect_attempts c.reconnects c (omega (arith, room)) closed
      ∙ ap (after_waits (waits_from config c.reconnect_attempts left)) (
          out_of_tries 0 tries (0 + left) (c.reconnect_attempts + left) (c.reconnects + left) c
            (omega (arith, room)))
      ∙ after_waits-some (waits_from config c.reconnect_attempts left) _
      ∙ ap
          (λ waits. some (record {
            connection = record (down (c.reconnect_attempts + left) (c.reconnects + left) c) {
              running = false;
            };
            waits = waits;
            returned = false;
          }))
          (append-nil (waits_from config c.reconnect_attempts left))
