-- ===== src/Access/Pooled/Interface.antt =====
-- The pool and the disk manager keep the laws of the pager interface.
use native.Mathlib.Decide.{ℕ_discrete}
use mathlib.Core.Path.{subst}
use mini_db.Base.{
  ℕ, ◌+◌, ◌<◌, ◌≡◌, ◌≢◌, refl, sym, ap, ◌∙◌, inl, inr, Bool, true, false, List, Option, none, some,
  length, Option-cases, arith,
}
use mini_db.Base.Outcome.{Outcome, ok, err}
use mini_db.Disk.{DiskError}
use mini_db.Buffer.Backing.{disk_file}
use mini_db.Buffer.Pool.{PoolError, not_resident, not_pinned, page_key, unpin_page, write_frame}
use mini_db.Buffer.Pool.Invariant.{pins_of}
use mini_db.Buffer.Pool.Laws.{unpinned, requeued}
use mini_db.Buffer.Content.{Pool, pins_at, key_at, frame_of, pinned}
use mini_db.Buffer.Content.Create.{beyond}
use mini_db.Buffer.Content.Labels.{labelled-pins_others}
use mini_db.Access.Pager.{Pager, PagerLaws, PinLaws}
use mini_db.Access.Pooled.{Pooled, pool_pager, IsBacked, IsHeld}
use mini_db.Access.Pooled.Release.{let_go, unpin_page-let_go}
use mini_db.Access.Pooled.Calls.{
  pages, length-pages, page_held, same_pages, still-IsHeld, stored-IsBacked, pages-store, gone,
  let_go_run, let_go_pins,
}
use mini_db.Access.Pooled.Laws.{
  count, fetch_law, new_law, gone_pages, dirty-IsBacked, clean-IsBacked,
}

module _ (file : ℕ) where
  abbrev pub pager : Pager Pooled ℕ (PoolError DiskError)
  pager = pool_pager file

  -- The operation that ran is the one whose effect is known.
  pub ran :
      {R : Type 0} (run : Pooled × R) (t u : Pooled) (r q : R) (Q : Pooled → Type 0)
      → run ≡ (t, r)
      → run ≡ (u, q)
      → Q t
      → Q u
  ran run t u r q Q e h known = subst Q (ap (λ z. z.0) (sym e ∙ h)) known

  pub fetch_keeps :
      (s t : Pooled) (p pid qid : ℕ) (r : Outcome (PoolError DiskError) ℕ)
      → IsBacked file s
      → IsHeld file p pid s
      → pager.fetch_page qid s ≡ (t, r)
      → IsHeld file p pid t
  fetch_keeps s t p pid qid r v h e = elim (fetch_law file qid s v) [
    | inl (f, u, run, w, held, same_pages, same_said, got) ↦
        ran (pager.fetch_page qid s) u t (ok f) r (IsHeld file p pid) run e (
          still-IsHeld file s u p pid h got.keeps (elim (ℕ_discrete pid qid) [
            | yes same ↦
                subst (λ z. 0 < pinned file u.bp z) (sym same) (omega (arith, got.pins_here))
            | no other ↦ omega (arith, got.pins_others pid other, h.1)
          ]))
    | inr (x, u, run, w, same_pages, same_said, same) ↦
        ran (pager.fetch_page qid s) u t (err x) r (IsHeld file p pid) run e
          (still-IsHeld file s u p pid h same.keeps (omega (arith, same.same_pins pid, h.1)))
  ]

  pub new_keeps :
      (s t : Pooled) (p pid : ℕ) (r : Outcome (PoolError DiskError) (ℕ × ℕ))
      → IsBacked file s
      → IsHeld file p pid s
      → pager.new_page s ≡ (t, r)
      → IsHeld file p pid t
  new_keeps s t p pid r v h e = elim (new_law file s v) [
    | inl (f, u, run, w, held, same_pages, same_said, got) ↦
        let inside = v.shows.in_file pid p h.0 in
        ran (pager.new_page s) u t (ok (f, length (pages file s))) r (IsHeld file p pid) run e (
          still-IsHeld file s u p pid h got.keeps
            (omega (arith, got.pins_others pid (λ x. omega (arith, inside, x)), h.1)))
    | inr (x, u, run, w, same_pages, same_said, same) ↦
        ran (pager.new_page s) u t (err x) r (IsHeld file p pid) run e
          (still-IsHeld file s u p pid h same.keeps (omega (arith, same.same_pins pid, h.1)))
  ]

  abbrev pub FrameHeld : ℕ → ℕ → Pool → Type 0
  FrameHeld p pid bp = (frame_of file bp pid ≡ some p) × (0 < pinned file bp pid)

  -- To let go of another page, or to fail at that.
  pub others_held :
      (s : Pooled) (p pid qid : ℕ) (dirty : Bool)
      → IsBacked file s
      → IsHeld file p pid s
      → qid ≢ pid
      → FrameHeld p pid (unpin_page {E = DiskError} (key_at file qid) dirty s.bp).0
  others_held s p pid qid dirty v h apart = elim (Option-cases (frame_of file s.bp qid)) [
    | inl absent ↦
        let run : unpin_page {E = DiskError} (key_at file qid) dirty s.bp
            ≡ (s.bp, err not_resident) =
          unfold unpin_page in ground (arith, absent) in
        subst (λ z. FrameHeld p pid z.0) (sym run) h
    | inr (g, found) ↦ elim (ℕ_discrete (pins_of s.bp g) 0) [
      | yes idle ↦
          let run : unpin_page {E = DiskError} (key_at file qid) dirty s.bp
              ≡ (s.bp, err not_pinned) =
            unfold unpin_page in ground (arith, found, idle) in
          subst (λ z. FrameHeld p pid z.0) (sym run) h
      | no busy ↦
          let pins =
            labelled-pins_others file v.size qid g (unpinned s.bp g dirty) (requeued s.bp g) s.said
              s.said s.bp v.disk v.whole v.shows found pid (λ e. apart (sym e)) in
          let left : FrameHeld p pid (let_go s.bp g dirty) = (h.0, omega (arith, pins, h.1)) in
          subst (λ z. FrameHeld p pid z.0)
            (sym (unpin_page-let_go s.bp v.size (key_at file qid) g dirty v.whole found busy)) left
    ]
  ]

  -- One pin more at one page.
  abbrev pub OneMore : ℕ → Pooled → Pooled → Type 0
  OneMore pid s t =
      (pinned file t.bp pid ≡ pinned file s.bp pid + 1)
      × ((q : ℕ) → q ≢ pid → pinned file t.bp q ≡ pinned file s.bp q)

  pub fetch_pins :
      (s t : Pooled) (p pid : ℕ)
      → IsBacked file s
      → pager.fetch_page pid s ≡ (t, ok p)
      → OneMore pid s t
  fetch_pins s t p pid v e = elim (fetch_law file pid s v) [
    | inl (f, u, run, w, held, same_pages, same_said, got) ↦
        ran (pager.fetch_page pid s) u t (ok f) (ok p) (OneMore pid s) run e
          (got.pins_here, got.pins_others)
    | inr (x, u, run, w, same_pages, same_said, same) ↦
        absurd (ground (arith, ap (λ z. z.1) (sym run ∙ e)))
  ]

  pub fetch_fails :
      (s t : Pooled) (x : PoolError DiskError) (pid : ℕ)
      → IsBacked file s
      → pager.fetch_page pid s ≡ (t, err x)
      → (q : ℕ) → pinned file t.bp q ≡ pinned file s.bp q
  fetch_fails s t x pid v e q = elim (fetch_law file pid s v) [
    | inl (f, u, run, w, held, same_pages, same_said, got) ↦
        absurd (ground (arith, ap (λ z. z.1) (sym run ∙ e)))
    | inr (y, u, run, w, same_pages, same_said, same) ↦
        ran (pager.fetch_page pid s) u t (err y) (err x)
          (λ z. pinned file z.bp q ≡ pinned file s.bp q) run e (same.same_pins q)
  ]

  pub new_pins :
      (s t : Pooled) (p pid : ℕ)
      → IsBacked file s
      → pager.new_page s ≡ (t, ok (p, pid))
      → OneMore pid s t
  new_pins s t p pid v e = elim (new_law file s v) [
    | inl (f, u, run, w, held, same_pages, same_said, got) ↦
        let at_end : v.disk.num_pages ≡ pid =
          sym (length-pages file s v)
          ∙ snd_ok f p (length (pages file s)) pid (ap (λ z. z.1) (sym run ∙ e)) in
        let unheld = ap (λ o. pins_at o s.bp) (beyond file v.size s.said s.bp v.disk v.shows) in
        subst (λ m. OneMore m s t) at_end
          (ran (pager.new_page s) u t _ (ok (p, pid)) (OneMore v.disk.num_pages s) run e
            (omega (arith, got.pins_here, unheld), got.pins_others))
    | inr (x, u, run, w, same_pages, same_said, same) ↦
        absurd (ground (arith, ap (λ z. z.1) (sym run ∙ e)))
  ]
    where
      snd_ok :
          (f g i j : ℕ)
          → Path (Outcome (PoolError DiskError) (ℕ × ℕ)) (ok (f, i)) (ok (g, j))
          → i ≡ j
      snd_ok f g i j h = cc

  pub new_fails :
      (s t : Pooled) (x : PoolError DiskError)
      → IsBacked file s
      → pager.new_page s ≡ (t, err x)
      → (q : ℕ) → pinned file t.bp q ≡ pinned file s.bp q
  new_fails s t x v e q = elim (new_law file s v) [
    | inl (f, u, run, w, held, same_pages, same_said, got) ↦
        absurd (ground (arith, ap (λ z. z.1) (sym run ∙ e)))
    | inr (y, u, run, w, same_pages, same_said, same) ↦
        ran (pager.new_page s) u t (err y) (err x) (λ z. pinned file z.bp q ≡ pinned file s.bp q)
          run e (same.same_pins q)
  ]

  pub stored-IsHeld :
      (s : Pooled) (p q pid : ℕ) (b : List ℕ)
      → IsHeld file p pid s
      → IsHeld file p pid (pager.store q b s)
  unfolding write_frame
  stored-IsHeld s p q pid b h = (h.0, subst (λ m. 0 < m) (sym (pins (frame_of file s.bp pid))) h.1)
    where
      pins : (o : Option ℕ) → pins_at o (write_frame q b s.bp) ≡ pins_at o s.bp
      pins none = refl
      pins (some g) = unfold write_frame in refl

  pub stored_pins :
      (s : Pooled) (p : ℕ) (b : List ℕ) (q : ℕ)
      → pinned file (pager.store p b s).bp q ≡ pinned file s.bp q
  unfolding write_frame
  stored_pins s p b q = pins (frame_of file s.bp q)
    where
      pins : (o : Option ℕ) → pins_at o (write_frame p b s.bp) ≡ pins_at o s.bp
      pins none = refl
      pins (some g) = unfold write_frame in refl

  -- The laws that every access method relies on.
  abbrev pub pool_laws : PagerLaws (pool_pager file)
  pool_laws = record {
    Valid = IsBacked file;
    Held = IsHeld file;
    pages = pages file;
    declared = λ s. s.said;
    num_pages_lem = count file;
    few_pages = λ s v. omega (arith, length-pages file s v, v.shows.sound.countable);
    load_lem = λ s p pid v h. page_held file s p pid v h;
    store_lem = λ s p pid b v h whole. (
      stored-IsBacked file s p pid b v h whole,
      stored-IsHeld s p p pid b h,
      pages-store file s p pid b v h whole,
      refl,
    );
    fetch_page_lem = λ pid s v. elim (fetch_law file pid s v) [
      | inl (f, t, run, w, held, same_pages, same_said, got) ↦
          inl (f, t, run, w, held, same_pages, same_said)
      | inr (e, t, run, w, same_pages, same_said, same) ↦ inr (e, t, run, w, same_pages, same_said)
    ];
    new_page_lem = λ s v. elim (new_law file s v) [
      | inl (f, t, run, w, held, same_pages, same_said, got) ↦
          inl (f, t, run, w, held, same_pages, same_said)
      | inr (e, t, run, w, same_pages, same_said, same) ↦ inr (e, t, run, w, same_pages, same_said)
    ];
    unpin_dirty_lem = λ s p pid v h.
        let (w, same) = dirty-IsBacked file s p pid v h in
        (
          gone file s p pid true v h,
          let_go_run file s p pid true v h,
          w,
          gone_pages file s p pid true v h w same,
          refl,
        );
    unpin_clean_lem = λ s p pid v h settled.
        let (w, same) = clean-IsBacked file s p pid v h settled in
        (
          gone file s p pid false v h,
          let_go_run file s p pid false v h,
          w,
          gone_pages file s p pid false v h w same,
          refl,
        );
    fetch_page_keeps = fetch_keeps;
    new_page_keeps = new_keeps;
    store_keeps = λ s p q pid qid b h k. stored-IsHeld s p q pid b h;
    unpin_keeps = λ s t p pid qid dirty r v h apart e.
        subst (IsHeld file p pid) (ap (λ z. z.0) e) (others_held s p pid qid dirty v h apart);
  }

  -- The pins are those of the pool's records.
  abbrev pub pool_pins : PinLaws pool_laws
  pool_pins = record {
    pins = λ s pid. pinned file s.bp pid;
    fetch_page_pins = fetch_pins;
    fetch_page_fails = fetch_fails;
    new_page_pins = new_pins;
    new_page_fails = new_fails;
    unpin_pins = λ s t p pid dirty v h e.
        ran (pager.unpin_page pid dirty s) (gone file s p pid dirty v h) t (ok tt) (ok tt)
          (λ z.
            (pinned file s.bp pid ≡ pinned file z.bp pid + 1)
            × ((q : ℕ) → q ≢ pid → pinned file z.bp q ≡ pinned file s.bp q))
          (let_go_run file s p pid dirty v h) e (let_go_pins file s p pid dirty v h);
    store_pins = stored_pins;
  }
