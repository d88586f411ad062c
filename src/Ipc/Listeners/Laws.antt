-- ===== src/Ipc/Listeners/Laws.antt =====
-- Who is notified: each listener once for every registration since it was last removed.
use kernelc_moderne.Prelude.{
  ℕ, ◌+◌, ◌≡◌, refl, ap, ◌∙◌, List, [], ◌∷◌, ◌++◌, arith, ◌==◌, if◌then◌else◌,
}
use kernelc_moderne.Ipc.Listeners.{
  MessageEvent, Notification, Router, register, unregister, notify_listeners, send_message,
}

pub count : ℕ → List ℕ → ℕ
count k [] = 0
count k (l ∷ ls) = (if l == k then 1 else 0) + count k ls

count-append : (k : ℕ) (xs ys : List ℕ) → count k (xs ++ ys) ≡ count k xs + count k ys
unfolding count
count-append k [] ys = omega arith
count-append k (x ∷ xs) ys = omega (arith, count-append k xs ys)

count-register :
    (k l : ℕ) (ls : List ℕ) → count k (register ls l) ≡ count k ls + (if l == k then 1 else 0)
unfolding register count
count-register k l ls = omega (arith, count-append k ls (l ∷ []))

count-unregister :
    (k l : ℕ) (ls : List ℕ) → count k (unregister ls l) ≡ (if l == k then 0 else count k ls)
unfolding unregister count
count-unregister k l [] = ground arith
count-unregister k l (x ∷ xs) = ground (arith, count-unregister k l xs)

pub data Change : Type 0 where
  added removed : ℕ → Change

pub apply : List ℕ → List Change → List ℕ
apply ls [] = ls
apply ls (added l ∷ cs) = apply (register ls l) cs
apply ls (removed l ∷ cs) = apply (unregister ls l) cs

-- The registrations of `k` since it was last removed, on top of the `n` before.
pub registrations : ℕ → ℕ → List Change → ℕ
registrations k n [] = n
registrations k n (added l ∷ cs) = registrations k (n + (if l == k then 1 else 0)) cs
registrations k n (removed l ∷ cs) = registrations k (if l == k then 0 else n) cs

count-apply :
    (k : ℕ) (cs : List Change) (ls : List ℕ) (n : ℕ)
    → count k ls ≡ n
    → count k (apply ls cs) ≡ registrations k n cs
unfolding apply registrations
count-apply k [] ls n e = e
count-apply k (added l ∷ cs) ls n e =
    count-apply k cs (register ls l) _
      (count-register k l ls ∙ ap (λ x. x + (if l == k then 1 else 0)) e)
count-apply k (removed l ∷ cs) ls n e =
    count-apply k cs (unregister ls l) _
      (count-unregister k l ls ∙ ap (λ x. if l == k then 0 else x) e)

module _ {Msg Status : Type 0} where
  -- How often a list of notifications calls listener `k`.
  pub calls : ℕ → List (Notification Msg Status) → ℕ
  calls k [] = 0
  calls k (n ∷ ns) = (if n.listener == k then 1 else 0) + calls k ns

  calls-notify_listeners :
      (k : ℕ) (ls : List ℕ) (event : MessageEvent) (msg : Msg) (status : Status)
      → calls k (notify_listeners ls event msg status) ≡ count k ls
  unfolding calls count notify_listeners
  calls-notify_listeners k [] event msg status = refl
  calls-notify_listeners k (l ∷ ls) event msg status =
      omega (arith, calls-notify_listeners k ls event msg status)

  -- After any registrations and removals that start without listeners, one sent message calls each
  -- listener as often as it was registered since it was last removed.
  pub send_message-calls :
      (router : Router Msg Status) (state : router.State) (cs : List Change) (k : ℕ) (msg : Msg)
      → calls k (send_message router state (apply [] cs) msg).2 ≡ registrations k 0 cs
  unfolding send_message count
  send_message-calls router state cs k msg =
      calls-notify_listeners k (apply [] cs) MessageEvent.sent msg _ ∙ count-apply k cs [] 0 refl
