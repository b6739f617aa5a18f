-- ===== src/Wal/Channel.antt =====
-- How `WalAppender::run` of src/wal.rs gathers the requests of its channel into batches.
use edgewit.Prelude.{
  ◌+◌, ◌≤◌, ◌<◌, ◌≡◌, ◌⊎◌, refl, Bool-cases, inl, inr, List, [], ◌∷◌, ◌++◌, arith, length, leb,
  length-append, append_assoc,
}
use edgewit.Wal.Appender.{WalRequest, drain, max_batch}

-- The batch and what stays in the channel are the requests in their order; the batch has at most
-- 5000 of them, and fewer only if the channel is empty.
pub record Drained (requests : List WalRequest) (r : List WalRequest × List WalRequest)
    : Type 0 where
  pub order : r.0 ++ r.1 ≡ requests
  pub some_taken : 0 < length r.0
  pub limit : length r.0 ≤ max_batch
  pub greedy : (r.1 ≡ []) ⊎ (length r.0 ≡ max_batch)

drain_from :
    (batch queue : List WalRequest)
    → 0 < length batch
    → length batch < max_batch
    → Drained (batch ++ queue) (drain batch queue)
unfolding drain
drain_from batch [] pos h = record {
  order = refl;
  some_taken = pos;
  limit = omega arith;
  greedy = inl refl;
}
drain_from batch (r ∷ queue) pos h =
    let e : length (batch ++ r ∷ []) ≡ length batch + 1 = length-append batch (r ∷ []) in
    elim (Bool-cases (leb max_batch (length (batch ++ r ∷ [])))) [
      | inl full ↦ rw full (record {
        order = append_assoc batch (r ∷ []) queue;
        some_taken = omega (arith, e);
        limit = omega (arith, e);
        greedy = inr (ground (arith, e));
      })
      | inr more ↦ rw more (
          rw append_assoc at
            (drain_from (batch ++ r ∷ []) queue (omega (arith, e)) (ground (arith, e))))
    ]

-- A round of the loop takes requests from the front of the channel, in order: at least one, at
-- most 5000, and fewer than 5000 only if the channel is empty then.
pub drain-Drained :
    (r : WalRequest) (queue : List WalRequest) → Drained (r ∷ queue) (drain (r ∷ []) queue)
drain-Drained r queue = drain_from (r ∷ []) queue (omega arith) (omega arith)
