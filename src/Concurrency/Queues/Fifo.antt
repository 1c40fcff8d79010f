-- ===== src/Concurrency/Queues/Fifo.antt =====
-- The order of a worker's queue (concurrency-manager.ts).
use shipyard_cp.Base.{
  ℕ, ◌≡◌, refl, sym, ap, ◌∙◌, inl, inr, Bool, true, false, Option, none, some, List, [], ◌∷◌, ◌++◌,
  map, String, str_eq, eq_iff, arith, if◌then◌else◌, Bool-cases, List-cases, nat_eqb, string_eqb,
}
use mathlib.Core.List.{append-nil, append_assoc}
use shipyard_cp.JsMap.{get-set}
use shipyard_cp.Concurrency.{ConcurrencyManager, EnqueueParams, QueuedJob}
use shipyard_cp.Concurrency.Queues.{queue_of, enqueue, dequeue}

-- The waiting jobs of a worker, oldest first.
abbrev pub waiting : ConcurrencyManager → String → List EnqueueParams
waiting m w = map (λ q. q.params) (queue_of m w)

map-concat :
    (qs : List QueuedJob) (q : QueuedJob)
    → map (λ r. r.params) (qs ++ q ∷ []) ≡ map (λ r. r.params) qs ++ q.params ∷ []
map-concat [] q = refl
map-concat (r ∷ qs) q = ap (◌∷◌ r.params) (map-concat qs q)

-- A new job goes to the end of its worker's queue, and no other queue changes.
waiting-enqueue :
    (m : ConcurrencyManager) (p : EnqueueParams) (now : ℕ) (w : String)
    → waiting (enqueue m p now) w
      ≡ (if str_eq p.worker_id w then waiting m w ++ p ∷ [] else waiting m w)
unfolding enqueue
waiting-enqueue m p now w = ground (
  arith,
  eq_iff p.worker_id w,
  get-set m.job_queue p.worker_id w
      (queue_of m p.worker_id ++ record { params = p; enqueued_at = now } ∷ []),
  map-concat (queue_of m w) (record { params = p; enqueued_at = now }),
)

-- A call on the queues.
pub data QueueCall : Type 0 where
  puts : EnqueueParams → (now : ℕ) → QueueCall
  takes : String → QueueCall

-- What a call that takes for `w`, or for another worker, adds to the jobs of `w`.
abbrev given : Bool → Option EnqueueParams → List EnqueueParams → List EnqueueParams
given true (some p) outs = p ∷ outs
given true none outs = outs
given false out outs = outs

-- The manager after the calls, and the jobs that were handed out to worker `w`, oldest first.
pub serve : ConcurrencyManager → String → List QueueCall → ConcurrencyManager × List EnqueueParams
serve m w [] = (m, [])
serve m w (puts p now ∷ cs) = serve (enqueue m p now) w cs
serve m w (takes v ∷ cs) =
    let (m', out) = dequeue m v in
    let (m'', outs) = serve m' w cs in (m'', given (str_eq v w) out outs)

-- The jobs that were put in for `w`.
unfoldable pub put_for : String → List QueueCall → List EnqueueParams
put_for w [] = []
put_for w (puts p now ∷ cs) = if str_eq p.worker_id w then p ∷ put_for w cs else put_for w cs
put_for w (takes v ∷ cs) = put_for w cs

-- What is handed out was the head of the queue.
dequeue_head :
    (m : ConcurrencyManager) (v w : String) (outs rest : List EnqueueParams)
    → outs ≡ waiting (dequeue m v).0 w ++ rest
    → given (str_eq v w) (dequeue m v).1 outs ≡ waiting m w ++ rest
unfolding dequeue
dequeue_head m v w outs rest h = elim (List-cases (queue_of m v)) [
  | inl e ↦ ground (arith, eq_iff v w)
  | inr (q, qs, e) ↦ ground (arith, eq_iff v w, get-set m.job_queue v w qs)
]

given-append :
    (b : Bool) (out : Option EnqueueParams) (xs ys : List EnqueueParams)
    → given b out xs ++ ys ≡ given b out (xs ++ ys)
given-append true (some p) xs ys = refl
given-append true none xs ys = refl
given-append false out xs ys = refl

enqueued :
    (m : ConcurrencyManager) (p : EnqueueParams) (now : ℕ) (w : String) (rest : List EnqueueParams)
    → waiting (enqueue m p now) w ++ rest
      ≡ waiting m w ++ (if str_eq p.worker_id w then p ∷ rest else rest)
enqueued m p now w rest = rw (waiting-enqueue m p now w) (elim (Bool-cases (str_eq p.worker_id w)) [
  | inl e ↦ rw e (append_assoc (waiting m w) (p ∷ []) rest)
  | inr e ↦ rw e
])

-- Over every sequence of calls the jobs handed out to a worker, and then those that still wait,
-- are the jobs that waited at first and then those that were put in: none is lost, doubled,
-- reordered or given to another worker.
pub queue_fifo :
    (m : ConcurrencyManager) (w : String) (cs : List QueueCall)
    → (serve m w cs).1 ++ waiting (serve m w cs).0 w ≡ waiting m w ++ put_for w cs
unfolding serve put_for
queue_fifo m w [] = sym (append-nil (waiting m w))
queue_fifo m w (puts p now ∷ cs) =
    queue_fifo (enqueue m p now) w cs ∙ enqueued m p now w (put_for w cs)
queue_fifo m w (takes v ∷ cs) =
    given-append (str_eq v w) (dequeue m v).1 (serve (dequeue m v).0 w cs).1
      (waiting (serve (dequeue m v).0 w cs).0 w)
    ∙ dequeue_head m v w _ (put_for w cs) (queue_fifo (dequeue m v).0 w cs)
