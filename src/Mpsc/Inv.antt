-- ===== src/Mpsc/Inv.antt =====
-- What holds in every state of the queue that an interleaving reaches.
use formula_one_telemetry_si.Prelude.{
  ℕ, suc, ◌≤◌, ◌<◌, ◌≡◌, ◌≢◌, ◌⊎◌, Bool, true, false, Option, none, some, length, if◌then◌else◌,
  get_elem?, take,
}
use formula_one_telemetry_si.Mpsc.Nodes.{Node, lookup}
use formula_one_telemetry_si.Mpsc.{
  Producer, Consumer, outside, exchanging, linking, taking, MpscQueue, System,
}

-- The nodes by the number of their exchange, the first sentinel 0: `first` is the number of the tail
-- and `last` that of the head. `owner k` is the producer that links the node `k` to the next.
pub record Ghost (T : Type 0) : Type 0 where
  pub first : ℕ
  pub last : ℕ
  pub addr : ℕ → ℕ
  pub dat : ℕ → T
  pub linked : ℕ → Bool
  pub owner : ℕ → ℕ

module _ {T : Type 0} where
  abbrev pub next_of : Ghost T → ℕ → Option ℕ
  next_of g k = if g.linked k then some (g.addr (suc k)) else none

  abbrev pub node_of : Ghost T → ℕ → Node T
  node_of g k = record { value = g.dat k; next = next_of g k }

  -- The numbers of the nodes in the queue, the sentinel included.
  abbrev pub IsLive : Ghost T → ℕ → Type 0
  IsLive g k = (g.first ≤ k) × (k ≤ g.last)

  pub record QueueOk (g : Ghost T) (q : MpscQueue T) : Type 0 where
    pub popped_count : length q.popped ≡ g.first
    pub pushed_count : length q.pushed ≡ g.last
    pub first-le : g.first ≤ g.last
    pub fifo : q.popped ≡ take g.first q.pushed
    pub head_at : q.head ≡ g.addr g.last
    pub tail_at : q.tail ≡ g.addr g.first
    pub distinct : (j k : ℕ) → IsLive g j → IsLive g k → g.addr j ≡ g.addr k → j ≡ k
    pub nodes : (k : ℕ) → IsLive g k → lookup q.memory (g.addr k) ≡ some (node_of g k)
    pub values : (k : ℕ) → g.first ≤ k → k < g.last → get_elem? q.pushed k ≡ some (g.dat (suc k))
    pub unlinked : g.linked g.last ≡ false
    pub no_fault : q.fault ≡ false

  -- A producer that links is the owner of a node that is not linked; the node of one that is to
  -- exchange is new.
  abbrev pub ProducerOk : Ghost T → MpscQueue T → ℕ → Producer T → Type 0
  ProducerOk g q i outside = Unit
  ProducerOk g q i (exchanging n v) =
      (lookup q.memory n ≡ some (record { value = v; next = none }))
      × ((k : ℕ) → IsLive g k → g.addr k ≢ n)
  ProducerOk g q i (linking a b) =
      (k : ℕ) × (g.first ≤ k)
      × (k < g.last)
      × (a ≡ g.addr k)
      × (b ≡ g.addr (suc k))
      × (g.linked k ≡ false)
      × (g.owner k ≡ i)

  abbrev pub ConsumerOk : Ghost T → Consumer → Type 0
  ConsumerOk g outside = Unit
  ConsumerOk g (taking n) =
      (g.first < g.last) × (n ≡ g.addr (suc g.first)) × (g.linked g.first ≡ true)

  -- Which producers stand where.
  pub record ProducersOk (g : Ghost T) (q : MpscQueue T) (producers : ℕ → Producer T) : Type 0 where
    pub each : (i : ℕ) → ProducerOk g q i (producers i)
    pub owners :
        (k : ℕ)
        → g.first ≤ k
        → k < g.last
        → g.linked k ≡ false
        → producers (g.owner k) ≡ linking (g.addr k) (g.addr (suc k))
    pub apart :
        (i j n : ℕ) (v w : T) → producers i ≡ exchanging n v → producers j ≡ exchanging n w → i ≡ j
    -- Every node that stands in the memory is in the queue, or is one that is to be exchanged.
    pub owned :
        (a : ℕ) (node : Node T)
        → lookup q.memory a ≡ some node
        → ((k : ℕ) × IsLive g k × (g.addr k ≡ a))
          ⊎ ((i : ℕ) × (v : T) × (producers i ≡ exchanging a v))

  pub record Inv (s : System T) : Type 0 where
    pub ghost : Ghost T
    pub queue_ok : QueueOk ghost s.queue
    pub producers_ok : ProducersOk ghost s.queue s.producers
    pub consumer_ok : ConsumerOk ghost s.consumer
