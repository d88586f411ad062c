-- ===== src/Ipc/Listeners/Tests.antt =====
-- A router that answers with the message itself.
use kernelc_moderne.Prelude.{ℕ, [], ◌∷◌, List}
use kernelc_moderne.Ipc.Listeners.{Router}
use kernelc_moderne.Ipc.Listeners.Laws.{Change, added, removed}

abbrev echo : Router ℕ ℕ
echo = record { State = ℕ; route_message = λ s m. (s, m); queued_messages = λ s. ([], s) }

abbrev changes : List Change
changes = added 4 ∷ added 5 ∷ added 4 ∷ removed 5 ∷ []
