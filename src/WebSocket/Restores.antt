-- ===== src/WebSocket/Restores.antt =====
-- The try of the loop that reconnects that opens and restores the subscriptions.
use bt_api_base.Prelude.{
  ℕ, suc, ◌+◌, ◌<◌, String, Bool, true, Option, some, List, [], ◌∷◌, ◌++◌, map, length,
  append_assoc, append-nil, ◌≡◌, ap, sym, ◌∙◌, ltb, arith,
}
use bt_api_base.Prelude.Dict.{values}
use bt_api_base.WebSocket.Config.{WebSocketConfig, Subscription}
use bt_api_base.WebSocket.Connection.{
  WebSocketConnection, Outcome, done, Message, message_of, connect, close_websocket, send_message,
}
use bt_api_base.WebSocket.Reconnect.{
  Try, opens, wait_time, Reconnection, unless_error, end_turn, restore_from, restore_subscriptions,
  attempt, dropped, counted, reconnect, handle_disconnect,
}
use bt_api_base.WebSocket.Reconnects.{
  waits_from, AllRefused, after_waits, down, all_refused, after_waits-some, lost,
}

module _ {X : Type 0} where
  -- The open connection, with a new task that receives, after `reconnects` in its life, with the messages on the wire.
  abbrev pub up : ℕ → ℕ → List (Message X) → WebSocketConnection X → WebSocketConnection X
  up reconnects sent wire c = record c {
    has_websocket = true;
    connected = true;
    running = true;
    processing_task = some c.tasks_started;
    tasks_started = suc c.tasks_started;
    reconnect_attempts = 0;
    messages_sent = sent;
    reconnects = reconnects;
    wire = wire;
  }

module _ {X : Type 0} (starts_with : String → String → Bool) (lower : String → String)
    (config : WebSocketConfig) where
  restore_taken :
      (taken : ℕ → Bool) (i : ℕ) (subs : List (Subscription X)) (n sent : ℕ)
      (wire : List (Message X)) (c : WebSocketConnection X)
      → ((k : ℕ) → taken k ≡ true)
      → restore_from starts_with lower config taken i subs (up n sent wire c) ≡ (
        up n (sent + length subs) (wire ++ map (message_of starts_with lower config true) subs) c,
        done,
      )
  unfolding send_message
  restore_taken taken i [] n sent wire c all =
      let e : sent ≡ sent + 0 = omega arith in
      ap (λ x. (up n x wire c, done)) e
      ∙ ap (λ x. (up n (sent + 0) x c, done)) (sym (append-nil wire))
  restore_taken taken i (s ∷ subs) n sent wire c all =
      let m = message_of starts_with lower config true s in
      let ms = map (message_of starts_with lower config true) subs in
      let go : Bool → WebSocketConnection X × Outcome = λ b.
        let r = send_message b m (up n sent wire c) in
        unless_error r.0 r.1 (restore_from starts_with lower config taken (suc i) subs r.0) in
      let e : suc sent + length subs ≡ sent + suc (length subs) = omega arith in
      ap go (all i)
      ∙ restore_taken taken (suc i) subs n (suc sent) (wire ++ m ∷ []) c all
      ∙ ap (λ x. (up n x ((wire ++ m ∷ []) ++ ms) c, done)) e
      ∙ ap (λ x. (up n (sent + suc (length subs)) x c, done)) (append_assoc wire (m ∷ []) ms)

  -- One try that opens and takes every message.
  one_restored :
      (fuel : ℕ) (tries : ℕ → Try) (taken : ℕ → Bool) (i a n : ℕ) (c : WebSocketConnection X)
      → a < config.max_reconnect_attempts
      → tries i ≡ opens taken
      → ((k : ℕ) → taken k ≡ true)
      → reconnect starts_with lower config (suc fuel) tries i (down a n c)
        ≡ some (record {
          connection =
              up
                (suc n)
                (c.messages_sent + length (values c.subscriptions))
                (c.wire ++ map (message_of starts_with lower config true) (values c.subscriptions))
                c;
          waits = wait_time config (suc a) ∷ [];
          returned = true;
        })
  unfolding reconnect attempt connect restore_subscriptions close_websocket
  one_restored fuel tries taken i a n c room open_now all =
      let open_ : ltb a config.max_reconnect_attempts ≡ true = ground arith in
      let tried = counted starts_with lower config (down a n c) in
      let wait = wait_time config (suc a) in
      let after : WebSocketConnection X × Outcome → Option (Reconnection X) = λ r.
        end_turn wait r.0 r.1 (
          reconnect starts_with lower config fuel tries (suc i)
            (dropped starts_with lower config r.0)) in
      rw (reconnect, open_)
        (ap (λ t. after (attempt starts_with lower config t tried)) open_now
          ∙ ap after
              (restore_taken taken 0 (values c.subscriptions) (suc n) c.messages_sent c.wire c all))

  -- A running connection that is lost after `a` tries, where `failed` tries do not open and the next,
  -- within the maximum, opens and takes every message, is connected again, with no try counted, all
  -- its subscriptions sent again in their order, and the waits before the tries doubled each time.
  pub comes_back :
      (failed : ℕ) (tries : ℕ → Try) (taken : ℕ → Bool) (c : WebSocketConnection X)
      → c.running ≡ true
      → c.reconnect_attempts + failed < config.max_reconnect_attempts
      → AllRefused tries 0 failed
      → tries (0 + failed) ≡ opens taken
      → ((k : ℕ) → taken k ≡ true)
      → handle_disconnect starts_with lower config (failed + 1) tries c
        ≡ some (record {
          connection =
              up
                (suc (c.reconnects + failed))
                (c.messages_sent + length (values c.subscriptions))
                (c.wire ++ map (message_of starts_with lower config true) (values c.subscriptions))
                c;
          waits =
              waits_from config c.reconnect_attempts failed
              ++ wait_time config (suc (c.reconnect_attempts + failed)) ∷ [];
          returned = true;
        })
  comes_back failed tries taken c runs room closed open_now all =
      lost starts_with lower config (failed + 1) tries c runs
      ∙ all_refused starts_with lower config failed 1 tries 0 c.reconnect_attempts c.reconnects c
          (omega (arith, room)) closed
      ∙ ap (after_waits (waits_from config c.reconnect_attempts failed)) (
          one_restored 0 tries taken (0 + failed) (c.reconnect_attempts + failed)
            (c.reconnects + failed) c room open_now all)
      ∙ after_waits-some starts_with lower config (waits_from config c.reconnect_attempts failed) _
