-- ===== src/Buffer/Content/Moves.antt =====
-- Making room in the pool changes no page that it shows.
use mathlib.Core.Option.{some-injective}
use mathlib.Core.Path.{subst}
use mini_db.Base.{ℕ, ◌≡◌, refl, sym, ap, ◌∙◌, true, List, some, get_elem?, arith}
use mini_db.Base.Maps.{lookup}
use mini_db.Disk.{DiskManager, DiskError}
use mini_db.Disk.Pages.{page_of}
use mini_db.Buffer.Backing.{disk_file}
use mini_db.Buffer.Lru.Member.{tracks}
use mini_db.Buffer.Pool.{page_key, bytes_of}
use mini_db.Buffer.Pool.Invariant.{key_of, pins_of, resident, holds, IsPool}
use mini_db.Buffer.Pool.Acquire.{Moved, stays, leaves, saved, torn, IsMoved}
use mini_db.Buffer.Content.{Pool, key_at, frame_of, IsShown, IsSame}
use mini_db.Buffer.Content.Writes.{IsWritten, write-IsWritten}
use mini_db.Buffer.Content.Kept.{kept-IsShown}
use mini_db.Buffer.Content.Left.{dropped-IsShown}

module _ (file : ℕ) (said : List (List ℕ)) (n : ℕ) (bp : Pool) (d : DiskManager)
    (s : IsShown file said n bp d) where
  -- Whatever acquireFrame did.
  pub moved-IsShown :
      (bp' : Pool)
      → IsPool bp n
      → IsMoved DiskError bp bp'
      → (d' : DiskManager) × IsShown file said n bp' d' × IsSame file bp bp' d d'
  moved-IsShown bp' v m = go m.moved
    where
      holder : (x : ℕ) → tracks x bp.replacer ≡ true → lookup (key_of bp x) bp.page_table ≡ some x
      holder x t = unfold resident holds in ground (arith, v.idle x (v.idle_in_range x t), t)

      idle : (x : ℕ) → tracks x bp.replacer ≡ true → pins_of bp x ≡ 0
      idle x t = ground (arith, v.idle x (v.idle_in_range x t), t)

      at_x :
          (x q : ℕ)
          → tracks x bp.replacer ≡ true
          → key_at file q ≡ key_of bp x
          → frame_of file bp q ≡ some x
      at_x x q t e = subst (λ k. lookup k bp.page_table ≡ some x) (sym e) (holder x t)

      written :
          (x : ℕ) (dx : DiskManager)
          → tracks x bp.replacer ≡ true
          → get_elem? bp.files (key_of bp x).file ≡ some dx
          → (d' : DiskManager) × IsWritten file (key_of bp x) (bytes_of bp x) bp.files dx d d'
      written x dx t there =
          write-IsWritten file (key_of bp x) (bytes_of bp x) bp.files dx d
            (s.sized x (v.idle_in_range x t))
            (λ e. s.in_file (key_of bp x).pid x (
              at_x x (key_of bp x).pid t
                (ap (λ i. record { file = i; pid = (key_of bp x).pid }) (sym e))))
            there s.filed s.sound

      below :
          (d' : DiskManager)
          → IsShown file said n bp' d' × IsSame file bp bp' d d'
          → (e : DiskManager) × IsShown file said n bp' e × IsSame file bp bp' d e
      below d' r = (d', r.0, r.1)

      go :
          Moved DiskError bp bp'
          → (d' : DiskManager) × IsShown file said n bp' d' × IsSame file bp bp' d d'
      go (stays files table) = below d (
          kept-IsShown file said n bp d s bp' d m.same_meta m.same_frames table
            (ap (λ z. get_elem? z file) files ∙ s.filed) s.sound refl (λ q l c. refl))
      go (leaves x t c files table) = below d (
          dropped-IsShown file said n bp d s x bp' d (holder x t) (idle x t) m.same_meta
            m.same_frames table (ap (λ z. get_elem? z file) files ∙ s.filed) s.sound refl
            (λ q l a. refl)
            (λ q e.
              let old = at_x x q t e in
              some-injective (page_of d q) (bytes_of bp x)
                (sym (s.clean q x old c) ∙ s.rested q x old (idle x t))))
      go (saved x dx a t there done files table) =
          let (d', w) = written x dx t there in
          below d' (
            dropped-IsShown file said n bp d s x bp' d' (holder x t) (idle x t) m.same_meta
              m.same_frames table (ap (λ z. get_elem? z file) files ∙ w.filed) w.sound w.same_count
              w.others (w.here done))
      go (torn x dx t there dirty files table) =
          let (d', w) = written x dx t there in
          below d' (
            kept-IsShown file said n bp d s bp' d' m.same_meta m.same_frames table
              (ap (λ z. get_elem? z file) files ∙ w.filed) w.sound w.same_count
              (λ q l c. w.others q l (λ e. ground (arith, c x (at_x x q t e), dirty))))
