-- ===== src/Ipc/Listeners.antt =====
-- ipc/ipc_manager.cpp: listeners and message handling. The router, the validation and the
-- dispatch are not in the repository: the router is a state with two operations, the validation a
-- test, and a dispatch is recorded. Listeners are pointers, so numbers.
pub mod Laws
mod Tests
use kernelc_moderne.Prelude.{ℕ, Bool, List, [], ◌∷◌, ◌++◌, ◌==◌, if◌then◌else◌, map}

pub data MessageEvent : Type 0 where
  sent : MessageEvent

-- A call of `onMessageEvent`.
pub record Notification (Msg Status : Type 0) : Type 0 where
  pub listener : ℕ
  pub event : MessageEvent
  pub message : Msg
  pub status : Status

pub record Router (Msg Status : Type 0) : Type 1 where
  pub State : Type 0
  pub route_message : State → Msg → State × Status
  pub queued_messages : State → List Msg × State

-- `listeners.push_back(listener)`
pub register : List ℕ → ℕ → List ℕ
register listeners listener = listeners ++ (listener ∷ [])

-- `listeners.erase(std::remove(begin, end, listener), end)`
pub unregister : List ℕ → ℕ → List ℕ
unregister [] listener = []
unregister (l ∷ ls) listener =
    let rest = unregister ls listener in if l == listener then rest else l ∷ rest

module _ {Msg Status : Type 0} where
  pub notify_listeners : List ℕ → MessageEvent → Msg → Status → List (Notification Msg Status)
  notify_listeners listeners event msg status =
      map (λ l. record { listener = l; event = event; message = msg; status = status }) listeners

  module _ (router : Router Msg Status) where
    pub send_message :
        router.State → List ℕ → Msg → router.State × Status × List (Notification Msg Status)
    send_message state listeners msg =
        let (state', status) = router.route_message state msg in
        (state', status, notify_listeners listeners MessageEvent.sent msg status)

    module _ (validate_message : Msg → Bool) where
      -- The messages that `handleMessage` dispatches, in order.
      pub handle_messages : List Msg → List Msg
      handle_messages [] = []
      handle_messages (m ∷ ms) =
          let rest = handle_messages ms in if validate_message m then m ∷ rest else rest

      pub process_messages : router.State → router.State × List Msg
      process_messages state =
          let (messages, state') = router.queued_messages state in
          (state', handle_messages messages)
