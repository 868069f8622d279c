-- ===== src/Mpsc/Keeps/Allocates.antt =====
-- `new Node{std::move(value)}` keeps the invariant, whatever free address the allocator returns.
use formula_one_telemetry_si.Prelude.{
  ℕ, ◌≡◌, ◌≢◌, ◌⊎◌, inl, inr, sym, ap, ◌∙◌, none, some, update, update_ne, update_self, update-both,
  update-eq,
}
use mathlib.Core.Path.{subst}
use formula_one_telemetry_si.Mpsc.Nodes.{
  Node, Memory, lookup, write, lookup-write_self, lookup-write_ne, lookup-write_eq, free-ne,
}
use formula_one_telemetry_si.Mpsc.{Producer, outside, exchanging, linking, MpscQueue}
use formula_one_telemetry_si.Mpsc.Inv.{Ghost, QueueOk, ProducersOk, ProducerOk, IsLive}

module _ {T : Type 0} where
  -- The queue reads the memory at its own nodes only.
  pub QueueOk-memory :
      (g : Ghost T) (q : MpscQueue T) (m : Memory T)
      → QueueOk g q
      → ((k : ℕ) → IsLive g k → lookup m (g.addr k) ≡ lookup q.memory (g.addr k))
      → QueueOk g (record q { memory = m })
  QueueOk-memory g q m v same = record {
    popped_count = v.popped_count;
    pushed_count = v.pushed_count;
    first-le = v.first-le;
    fifo = v.fifo;
    head_at = v.head_at;
    tail_at = v.tail_at;
    distinct = v.distinct;
    nodes = λ k l. same k l ∙ v.nodes k l;
    values = v.values;
    unlinked = v.unlinked;
    no_fault = v.no_fault;
  }

  module _ (g : Ghost T) (q : MpscQueue T) (producers : ℕ → Producer T) (i a : ℕ) (x : T)
      (v : QueueOk g q) (ps : ProducersOk g q producers) (free : lookup q.memory a ≡ none)
      (at : producers i ≡ outside) where
    abbrev fresh : Node T
    fresh = record { value = x; next = none }

    abbrev after : MpscQueue T
    after = record q { memory = write q.memory a (some fresh) }

    addr-ne : (k : ℕ) → IsLive g k → a ≢ g.addr k
    addr-ne k l = free-ne q.memory a (g.addr k) _ free (v.nodes k l)

    pub fresh-QueueOk : QueueOk g after
    fresh-QueueOk =
        QueueOk-memory g q _ v (λ k l. lookup-write_ne q.memory a (g.addr k) _ (addr-ne k l))

    others : (j : ℕ) (p : Producer T) → ProducerOk g q j p → ProducerOk g after j p
    others j outside ok = ok
    others j (exchanging n w) (stands, new) =
        (lookup-write_ne q.memory a n _ (free-ne q.memory a n _ free stands) ∙ stands, new)
    others j (linking b c) ok = ok

    -- A producer that stands inside `push` is not the one that now allocates.
    inside : (j : ℕ) (p : Producer T) → producers j ≡ p → p ≢ outside → i ≢ j
    inside j p e ne same = ne (sym e ∙ ap producers (sym same) ∙ at)

    no_other : (j n : ℕ) (w : T) → a ≡ n → producers j ≡ exchanging n w → ⊥
    no_other j n w same e =
        let (stands, _) = subst (ProducerOk g q j) e (ps.each j) in
        free-ne q.memory a n _ free stands same

    one :
        (j k n : ℕ) (w z : T)
        → update producers i (exchanging a x) j ≡ exchanging n w
        → update producers i (exchanging a x) k ≡ exchanging n z
        → j ≡ k
    one j k n w z e e' = elim (update-eq producers i j (exchanging a x) _ e) [
      | inl (here, p) ↦ elim (update-eq producers i k (exchanging a x) _ e') [
        | inl (here', _) ↦ sym here ∙ here'
        | inr (_, old) ↦ absurd (no_other k n z (cc) old)
      ]
      | inr (_, old) ↦ elim (update-eq producers i k (exchanging a x) _ e') [
        | inl (here, p) ↦ absurd (no_other j n w (cc) old)
        | inr (_, old') ↦ ps.apart j k n w z old old'
      ]
    ]

    owned_after :
        (b : ℕ) (node : Node T)
        → lookup (write q.memory a (some fresh)) b ≡ some node
        → ((k : ℕ) × IsLive g k × (g.addr k ≡ b))
          ⊎ ((j : ℕ) × (w : T) × (update producers i (exchanging a x) j ≡ exchanging b w))
    owned_after b node e = elim (lookup-write_eq q.memory a b _ _ e) [
      | inl (same, _) ↦ inr (i, x, update_self producers i _ ∙ ap (λ n. exchanging n x) same)
      | inr (_, old) ↦ elim (ps.owned b node old) [
        | inl live ↦ inl live
        | inr (j, w, stands) ↦
            inr (j, w, update_ne producers i j _ (inside j _ stands (λ e'. cc)) ∙ stands)
      ]
    ]

    pub fresh-ProducersOk : ProducersOk g after (update producers i (exchanging a x))
    fresh-ProducersOk = record {
      each =
          update-both (ProducerOk g after) producers i (exchanging a x)
            (lookup-write_self q.memory a (some fresh), λ k l e. addr-ne k l (sym e))
            (λ j _. others j (producers j) (ps.each j));
      owners = λ k l r unlinked.
          update_ne producers i (g.owner k) _
            (inside (g.owner k) _ (ps.owners k l r unlinked) (λ e. cc))
          ∙ ps.owners k l r unlinked;
      apart = one;
      owned = owned_after;
    }
