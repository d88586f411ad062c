-- ===== src/Ipc/Messages.antt =====
-- ipc/ipc_manager.hpp, MessageQueue. The comparison of the `std::priority_queue` is not in the
-- file: it is an argument, `below a b` when `b` goes first. Among equals the oldest is on top,
-- one of the choices that the standard allows. The clock's reading is an argument of `send`.
pub mod Laws
mod Tests
use kernelc_moderne.Prelude.{
  ℕ, zero, suc, Bool, List, [], ◌∷◌, ◌++◌, Option, none, some, ◌==◌, if◌then◌else◌,
}

pub record Message : Type 0 where
  pub sender : ℕ
  pub receiver : ℕ
  pub content : List ℕ
  pub priority : ℕ
  pub timestamp : ℕ

-- `Message{}`
abbrev pub empty_message : Message
empty_message = record { sender = 0; receiver = 0; content = []; priority = 0; timestamp = 0 }

-- The queue is the list of its messages, oldest first. `dest` only says whom to notify.
pub send : ℕ → List Message → ℕ → Message → List Message
send now queue dest msg = queue ++ (record msg { timestamp = now } ∷ [])

module _ (below : Message → Message → Bool) where
  -- The top of the queue and the messages that stay when it is popped.
  pub top : List Message → Option (Message × List Message)
  top [] = none
  top (m ∷ ms) = elim (top ms) [
    | none ↦ some (m, ms)
    | some (t, rest) ↦ if below m t then some (t, m ∷ rest) else some (m, ms)
  ]

  pub receive : List Message → ℕ → List Message × Message
  receive queue receiver = elim (top queue) [
    | none ↦ (queue, empty_message)
    | some (m, rest) ↦ if m.receiver == receiver then (rest, m) else (queue, empty_message)
  ]

  -- `while (!messages.empty()) messages.pop();`, with fuel.
  pub clear : ℕ → List Message → List Message
  clear zero queue = queue
  clear (suc fuel) queue = elim (top queue) [ none ↦ queue | some (m, rest) ↦ clear fuel rest ]
