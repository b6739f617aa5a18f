-- ===== src/Wal/Ending.antt =====
-- That the loop of `WalAppender::run` in src/wal.rs comes to the end of its channel whatever fails, and
-- whom it answers on the way.
use edgewit.Prelude.{
  ℕ, zero, suc, ◌+◌, ◌≤◌, ◌≡◌, refl, ap, Bool, true, false, Bool-cases, inl, inr, List, [], ◌∷◌,
  ◌++◌, map, length, length-append, arith,
}
use edgewit.Wal.Frame.{frame_parts}
use edgewit.Wal.Appender.{
  WalRequest, WalAppender, Output, respond, forward, drain, run, process_batch, commit_batch,
  write_batch, write_parts, finish, answer, advance,
}
use edgewit.Wal.Channel.{drain-Drained}

-- `xs` is `ys` with some elements left out.
pub data Within : List ℕ → List ℕ → Type 0 where
  done : Within [] []
  keep : {xs ys : List ℕ} (x : ℕ) → Within xs ys → Within (x ∷ xs) (x ∷ ys)
  skip : {xs ys : List ℕ} (x : ℕ) → Within xs ys → Within xs (x ∷ ys)

abbrev pub responders : List WalRequest → List ℕ
responders = map (λ (r : WalRequest). r.responder)

-- Whom the appender answers, in order.
abbrev pub answered : List Output → List ℕ
answered [] = []
answered (respond id result ∷ sent) = id ∷ answered sent
answered (forward event ∷ sent) = answered sent

none_Within : (ys : List ℕ) → Within [] ys
none_Within [] = done
none_Within (y ∷ ys) = skip y (none_Within ys)

append-Within : (xs ys us vs : List ℕ) → Within xs ys → Within us vs → Within (xs ++ us) (ys ++ vs)
append-Within [] [] us vs done w = w
append-Within (x ∷ xs) [] us vs v w = elim v [ ]
append-Within (x ∷ xs) (x' ∷ ys) us vs (keep x'' v) w = keep x'' (append-Within xs ys us vs v w)
append-Within xs (y ∷ ys) us vs (skip y' v) w = skip y' (append-Within xs ys us vs v w)

map-responders-append :
    (xs ys : List WalRequest) → responders (xs ++ ys) ≡ responders xs ++ responders ys
map-responders-append [] ys = refl
map-responders-append (x ∷ xs) ys = ap (◌∷◌ x.responder) (map-responders-append xs ys)

answered-append : (xs ys : List Output) → answered (xs ++ ys) ≡ answered xs ++ answered ys
answered-append [] ys = refl
answered-append (respond id result ∷ xs) ys = ap (◌∷◌ id) (answered-append xs ys)
answered-append (forward event ∷ xs) ys = answered-append xs ys

abbrev requesters : List (WalRequest × ℕ) → List ℕ
requesters [] = []
requesters ((r, offset) ∷ l) = r.responder ∷ requesters l

answer-requesters :
    (success : Bool) (l : List (WalRequest × ℕ)) → answered (answer success l) ≡ requesters l
unfolding answer
answer-requesters success [] = refl
answer-requesters true ((r, offset) ∷ l) = ap (◌∷◌ r.responder) (answer-requesters true l)
answer-requesters false ((r, offset) ∷ l) = ap (◌∷◌ r.responder) (answer-requesters false l)

module _ (crc : List ℕ → ℕ) where
  write_batch-Within :
      (batch : List WalRequest) (a : WalAppender)
      → Within (requesters (write_batch crc batch a).1) (responders batch)
  unfolding write_batch
  write_batch-Within [] a = done
  write_batch-Within (r ∷ rs) a =
      let parts = frame_parts crc r.event in
      let a' = advance r.event (record a { writer = (write_parts parts a.writer).1 }) in
      elim (Bool-cases (write_parts parts a.writer).0) [
        | inl good ↦ rw good (keep r.responder (write_batch-Within rs a'))
        | inr bad ↦ rw bad (none_Within (r.responder ∷ responders rs))
      ]

  process_batch-Within :
      (batch : List WalRequest) (a : WalAppender)
      → Within (answered (process_batch crc batch a).0) (responders batch)
  unfolding process_batch commit_batch finish
  process_batch-Within batch a =
      rw (answer-requesters (commit_batch crc batch a).0 (commit_batch crc batch a).1)
        (write_batch-Within batch a)

  -- Each round takes a request at least.
  shorter :
      (r : WalRequest) (queue : List WalRequest) → length (drain (r ∷ []) queue).1 ≤ length queue
  shorter r queue =
      let d = drain-Drained r queue in
      omega (
        arith,
        length-append (drain (r ∷ []) queue).0 (drain (r ∷ []) queue).1,
        ap length d.order,
        d.some_taken,
      )

  rounds_enough :
      (n m : ℕ) (queue : List WalRequest) (a : WalAppender)
      → length queue ≤ n
      → length queue ≤ m
      → run crc n queue a ≡ run crc m queue a
  unfolding run
  rounds_enough zero zero [] a h k = refl
  rounds_enough zero (suc m) [] a h k = refl
  rounds_enough (suc n) zero [] a h k = refl
  rounds_enough (suc n) (suc m) [] a h k = refl
  rounds_enough zero m (r ∷ queue) a h k = absurd (omega arith)
  rounds_enough (suc n) zero (r ∷ queue) a h k = absurd (omega arith)
  rounds_enough (suc n) (suc m) (r ∷ queue) a h k =
      let batch = (drain (r ∷ []) queue).0 in
      let rest = (drain (r ∷ []) queue).1 in
      let (sent, a') = process_batch crc batch a in
      ap (λ (later : List Output × WalAppender). (sent ++ later.0, later.1))
        (rounds_enough n m rest a' (omega (arith, shorter r queue))
          (omega (arith, shorter r queue)))

  answers_Within :
      (n : ℕ) (queue : List WalRequest) (a : WalAppender)
      → length queue ≤ n
      → Within (answered (run crc n queue a).0) (responders queue)
  unfolding run
  answers_Within zero [] a h = done
  answers_Within zero (r ∷ queue) a h = absurd (omega arith)
  answers_Within (suc n) [] a h = done
  answers_Within (suc n) (r ∷ queue) a h =
      let batch = (drain (r ∷ []) queue).0 in
      let rest = (drain (r ∷ []) queue).1 in
      let (sent, a') = process_batch crc batch a in
      rw
        (
          answered-append sent (run crc n rest a').0,
          ← ap responders (drain-Drained r queue).order,
          map-responders-append batch rest,
        )
        (append-Within _ _ _ _ (process_batch-Within batch a)
          (answers_Within n rest a' (omega (arith, shorter r queue))))

  -- Whatever system calls fail, as many rounds as the channel has requests bring the loop to its
  -- end, since more of them change nothing, and it answers a part of the requests, in their order
  -- and each at most once.
  pub run_ends :
      (more : ℕ) (queue : List WalRequest) (a : WalAppender)
      → (run crc (length queue + more) queue a ≡ run crc (length queue) queue a)
        × Within (answered (run crc (length queue) queue a).0) (responders queue)
  run_ends more queue a = (
    rounds_enough (length queue + more) (length queue) queue a (omega arith) (omega arith),
    answers_Within (length queue) queue a (omega arith),
  )
