-- ===== src/Buffer/Pool/Requeue.antt =====
-- A victim whose write-back fails: where the replacer then has it.
use mini_db.Base.{ℕ, ◌≡◌, ap, ◌∙◌, true, [], ◌∷◌, ◌++◌, some, get_elem?, inl, inr, arith}
use mini_db.Base.Outcome.{err}
use mini_db.Buffer.Lru.{Lru, victim}
use mini_db.Buffer.Lru.Queue.{Agrees, queue}
use mini_db.Buffer.Lru.Laws.{victim-queue}
use mini_db.Buffer.Lru.Member.{queue-unpin_victim}
use mini_db.Buffer.Pool.{BufferPool, DiskFile, victim_error, meta_of, evict, acquire_frame}
use mini_db.Buffer.Pool.Invariant.{key_of, IsPool}
use mini_db.Buffer.Pool.Acquire.{write_of, evict_failed}

module _ {F E : Type 0} ⦃dm : DiskFile F E⦄ where
  -- On a pool whose frames are each in one of the three states and none free, AcquireFrame with a dirty
  -- victim whose write-back fails returns the error, and the victim, which stood at the back of the
  -- replacer's queue, stands at its front.
  pub acquire_frame_requeues :
      (bp : BufferPool F) (n x : ℕ) (s : Lru) (d : F) (e : E)
      → IsPool bp n
      → bp.free_list ≡ []
      → victim bp.replacer ≡ (s, some x)
      → get_elem? bp.files (key_of bp x).file ≡ some d
      → (meta_of bp x).dirty ≡ true
      → (write_of {E = E} bp x d).1 ≡ err e
      → ((acquire_frame {E = E} bp).1 ≡ err (victim_error e))
        × (queue bp.replacer ≡ queue s ++ x ∷ [])
        × (queue (acquire_frame {E = E} bp).0.replacer ≡ x ∷ queue s)
  acquire_frame_requeues bp n x s d e v full taken there dirty failed =
      elim (victim-queue bp.replacer v.replacer_agrees) [
        | inl (empty, same) ↦ cc
        | inr (f, s', found, agrees, split) ↦
            let same_frame : f ≡ x = cc in
            let same_rest : s' ≡ s = cc in
            let old : queue bp.replacer ≡ queue s ++ x ∷ [] =
              rw (← same_frame, ← same_rest) split in
            let agrees' : Agrees s = rw (← same_rest) agrees in
            let enters : acquire_frame {E = E} bp ≡ evict {E = E} x (record bp { replacer = s }) =
              unfold acquire_frame in ground (arith, full, taken) in
            let fails =
              enters ∙ evict_failed (record bp { replacer = s }) x d there dirty e failed in
            (
              ap (λ r. r.1) fails,
              old,
              ap (λ r. queue r.0.replacer) fails
                  ∙ queue-unpin_victim x bp.replacer s v.replacer_agrees agrees' old,
            )
      ]
