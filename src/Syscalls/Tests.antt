-- ===== src/Syscalls/Tests.antt =====
-- A table with one call, and two registrations of another.
use kernelc_moderne.Prelude.{ℕ, List, [], ◌∷◌, some}
use kernelc_moderne.Syscalls.{Outcome, Handler, SystemCallManager}

abbrev answer : ℕ → Handler ℕ
answer n = λ w params. some (w, Outcome.value n)

abbrev one_call : SystemCallManager ℕ
one_call = record { syscall_table = (1, answer 7) ∷ []; syscall_counter = 0; errors = [] }

abbrev registrations : List (ℕ × Handler ℕ)
registrations = (2, answer 8) ∷ (1, answer 9) ∷ (2, answer 9) ∷ []
