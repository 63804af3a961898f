-- ===== src/Dispatcher/Invariant/Frame.antt =====
-- Proofs about what the loops over the queue and the pruning write in dispatcher/dispatcher.py.
use single_gpu_ai_services.Base.{ℕ, ◌≡◌, refl, ◌∙◌, List, [], ◌∷◌, String, arith}
use single_gpu_ai_services.Dispatcher.Lease.{expired}
use single_gpu_ai_services.Dispatcher.State.{Dispatcher, prune, mark_terminal}
use single_gpu_ai_services.Dispatcher.Worker.{
  expire_one, expire_each, expire_queued, next_from, tidy,
}
use single_gpu_ai_services.Dispatcher.Invariant.Queue.{next_from_cases}

pub record Frame (d d' : Dispatcher) : Type 0 where
  pub same_config : d'.config ≡ d.config
  pub same_epoch : d'.epoch ≡ d.epoch
  pub same_current : d'.current ≡ d.current
  pub same_system : d'.system_state ≡ d.system_state
  pub same_reason : d'.degraded_reason ≡ d.degraded_reason
  pub same_closed : d'.closed ≡ d.closed

pub Frame-refl : (d : Dispatcher) → Frame d d
Frame-refl d = ground arith

pub Frame-trans : (a b c : Dispatcher) → Frame a b → Frame b c → Frame a c
Frame-trans a b c p q = ground arith

expire_one-Frame :
    (now : ℕ) (j : String) (d : Dispatcher)
    → Frame d (expire_one now j d) × ((expire_one now j d).queue ≡ d.queue)
unfolding expire_one mark_terminal
expire_one-Frame now j d = ground arith

pub expire_each-Frame :
    (now : ℕ) (js : List String) (d : Dispatcher)
    → Frame d (expire_each now js d) × ((expire_each now js d).queue ≡ d.queue)
unfolding expire_each
expire_each-Frame now [] d = (Frame-refl d, refl)
expire_each-Frame now (j ∷ js) d =
    let (p, e) = expire_one-Frame now j d in
    let (q, f) = expire_each-Frame now js (expire_one now j d) in
    (Frame-trans d (expire_one now j d) _ p q, f ∙ e)

pub tidy-Frame : (now : ℕ) (d : Dispatcher) → Frame d (tidy now d) × ((tidy now d).queue ≡ d.queue)
unfolding tidy expire_queued prune
tidy-Frame now d = let (p, e) = expire_each-Frame now d.queue d in (ground (arith, p), e)

pub next_from-Frame : (now : ℕ) (js : List String) (d : Dispatcher) → Frame d (next_from now js d).1
unfolding next_from mark_terminal
next_from-Frame now [] d = ground arith
next_from-Frame now (j ∷ js) d =
    next_from_cases (λ t. Frame d t.1) now j js d
      (λ r e q _.
        Frame-trans d (mark_terminal r expired d) _ (ground arith)
          (next_from-Frame now js (mark_terminal r expired d)))
      (λ r e q _. ground arith) (λ idle. next_from-Frame now js d)
