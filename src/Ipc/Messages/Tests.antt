-- ===== src/Ipc/Messages/Tests.antt =====
-- A queue ordered by the `priority` field.
use kernelc_moderne.Prelude.{ℕ, ◌≡◌, refl, Bool, true, false, [], ◌∷◌, arith, ltb, List}
use kernelc_moderne.Ipc.Messages.{Message, empty_message, receive, top}
use kernelc_moderne.Ipc.Messages.Laws.{Received, receive-Received}

abbrev lower_priority : Message → Message → Bool
lower_priority a b = ltb a.priority b.priority

abbrev note : ℕ → ℕ → Message
note receiver priority = record {
  sender = 1;
  receiver = receiver;
  content = [];
  priority = priority;
  timestamp = 5;
}

abbrev two : List Message
two = note 2 1 ∷ note 3 9 ∷ []

-- The message for process 2 waits behind the one for process 3.
blocked : receive lower_priority two 2 ≡ (two, empty_message)
unfolding receive top
blocked = refl

delivered : receive lower_priority two 3 ≡ (note 2 1 ∷ [], note 3 9)
unfolding receive top
delivered = refl

irreflexive : (a : Message) → lower_priority a a ≡ false
irreflexive a = ground arith

asymmetric : (a b : Message) → lower_priority a b ≡ true → lower_priority b a ≡ false
asymmetric a b h = ground arith

transitive :
    (a b c : Message)
    → lower_priority a b ≡ false
    → lower_priority b c ≡ false
    → lower_priority a c ≡ false
transitive a b c h k = ground arith

receive-Received_example :
    Received lower_priority two 3 (receive lower_priority two 3).0 (receive lower_priority two 3).1
receive-Received_example = receive-Received lower_priority irreflexive asymmetric transitive two 3
