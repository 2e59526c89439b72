-- ===== src/Pool/Room.antt =====
-- httpserver.c: what the threads may have to wait for.
use cse130_asgn.Base.{ℕ, ◌<◌, List, [], ◌∷◌, ◌++◌, length, ◌≡◌, ◌≢◌, refl, ap, arith, ==_ne}
use cse130_asgn.Queue.{passed}
use cse130_asgn.Queue.Spec
use cse130_asgn.Pool.{Request, queueing, Pool, Reachable, start_pool}
use cse130_asgn.Pool.Sound.{Sound, held, Reachable-Sound}

-- Where a request is to be put back, its queue has room: no `queue_push` of the server waits.
module _ (requests : List Request) (threads : ℕ) (p : Pool)
    (reached : Reachable (length requests) (start_pool requests threads) p) where
  sound : Sound (length requests) p
  sound = Reachable-Sound (length requests) requests threads p refl reached

  -- In every state that the server reaches, with queues for as many requests as there are, each
  -- `queue_push` that is due finds room: none of them waits.
  pub pushes_pass :
      ((r : Request)
        → p.main ≡ queueing r
        → Spec.push (length requests) p.jobs r ≡ passed (p.jobs ++ r ∷ []))
      × (((r : Request)
            → p.blocked ≢ []
            → Spec.push (length requests) p.jobs r ≡ passed (p.jobs ++ r ∷ []))
          × ((r : Request)
              → p.closed ≢ []
              → Spec.push (length requests) p.free r ≡ passed (p.free ++ r ∷ [])))
  pushes_pass = (
    (λ r e. roomy p.jobs r (omega (arith, sound.all_there, ap held e))),
    (
      (λ r ne. roomy p.jobs r (omega (arith, sound.all_there, some_in p.blocked ne))),
      (λ r ne. roomy p.free r (omega (arith, sound.all_there, some_in p.closed ne))),
    ),
  )
    where
      some_in : (xs : List Request) → xs ≢ [] → 0 < length xs
      some_in [] n = absurd (n refl)
      some_in (x ∷ xs) n = omega arith

      roomy :
          (xs : List Request) (r : Request)
          → length xs < (length requests)
          → Spec.push (length requests) xs r ≡ passed (xs ++ r ∷ [])
      roomy xs r lt =
          unfold Spec.push in (rw (==_ne (length xs) (length requests) (omega arith)) refl)
