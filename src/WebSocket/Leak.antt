-- ===== src/WebSocket/Leak.antt =====
-- A subscription that is made twice.
use bt_api_base.Prelude.{
  suc, ◌<◌, ◌-◌, String, Bool, false, none, some, ◌≡◌, ap, ◌∙◌, leb, string_key, arith,
}
use bt_api_base.Prelude.Dict.{lookup, insert, erase, lookup-insert_self, lookup-erase_self}
use bt_api_base.WebSocket.Config.{WebSocketConfig, Subscription, limit_of}
use bt_api_base.WebSocket.Connection.{
  WebSocketConnection, or_zero, count_of, subscribe, unsubscribe,
}
use bt_api_base.WebSocket.Limits.{send_message-subscriptions}

module _ {X : Type 0} (starts_with : String → String → Bool) (lower : String → String)
    (config : WebSocketConfig) where
  pub subscribe-count :
      (taken : Bool) (s : Subscription X) (c : WebSocketConnection X)
      → count_of s.topic c < limit_of config s.topic
      → ((subscribe starts_with lower config taken s c).0.subscriptions
          ≡ insert s.id s c.subscriptions)
        × (count_of s.topic (subscribe starts_with lower config taken s c).0
            ≡ suc (count_of s.topic c))
  unfolding subscribe
  subscribe-count taken s c below =
      let open_ : leb (limit_of config s.topic) (count_of s.topic c) ≡ false = ground arith in
      let n = suc (count_of s.topic c) in
      let kept = send_message-subscriptions taken _ _ in
      rw (subscribe, open_)
        (
          kept.0,
          ap (λ counts. or_zero (lookup s.topic counts)) kept.1
              ∙ ap or_zero (lookup-insert_self s.topic n c.subscription_count),
        )

  unsubscribe-count :
      (taken : Bool) (id : String) (s : Subscription X) (c : WebSocketConnection X)
      → lookup id c.subscriptions ≡ some s
      → ((unsubscribe starts_with lower config taken id c).0.subscriptions
          ≡ erase id c.subscriptions)
        × (count_of s.topic (unsubscribe starts_with lower config taken id c).0
            ≡ count_of s.topic c - 1)
  unfolding unsubscribe
  unsubscribe-count taken id s c found =
      let n = count_of s.topic c - 1 in
      let kept = send_message-subscriptions taken _ _ in
      rw (unsubscribe, found)
        (
          kept.0,
          ap (λ counts. or_zero (lookup s.topic counts)) kept.1
              ∙ ap or_zero (lookup-insert_self s.topic n c.subscription_count),
        )

  -- A subscription that is made twice under one identifier, with room for both in the limit, and ended
  -- once, is no longer there, but the count of its topic has grown by one.
  pub resubscribe_leaks :
      (a b d : Bool) (s : Subscription X) (c : WebSocketConnection X)
      → suc (count_of s.topic c) < limit_of config s.topic
      → let once = (subscribe starts_with lower config a s c).0 in
        let twice = (subscribe starts_with lower config b s once).0 in
        let ended = (unsubscribe starts_with lower config d s.id twice).0 in
        (lookup s.id ended.subscriptions ≡ none)
        × (count_of s.topic ended ≡ suc (count_of s.topic c))
  resubscribe_leaks a b d s c room =
      let once = (subscribe starts_with lower config a s c).0 in
      let twice = (subscribe starts_with lower config b s once).0 in
      let (stored, first) = subscribe-count a s c (omega (arith, room)) in
      let (again, second) = subscribe-count b s once (omega (arith, room, first)) in
      let there : lookup s.id twice.subscriptions ≡ some s =
        ap (lookup s.id) again ∙ lookup-insert_self s.id s once.subscriptions in
      let (gone, last) = unsubscribe-count d s.id s twice there in
      (
        ap (lookup s.id) gone ∙ lookup-erase_self s.id twice.subscriptions,
        omega (arith, first, second, last),
      )
