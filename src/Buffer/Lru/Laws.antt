-- ===== src/Buffer/Lru/Laws.antt =====
-- The replacer refines a queue of frames without repetitions: Unpin enters at the front, Pin takes a
-- frame out, Victim takes the back.
use mini_db.Base.{
  ℕ, ◌+◌, ◌<◌, ◌≡◌, ◌≢◌, refl, sym, ap, ◌∙◌, false, List, [], ◌∷◌, ◌++◌, none, some, if◌then◌else◌,
  All, Option-cases, ◌⊎◌, inl, inr, arith,
}
use mini_db.Base.Maps.{nat_key, lookup, insert, remove, lookup-insert, lookup-remove}
use mini_db.Buffer.Lru.{Element, Lru, new_lru, remove_element, back, unpin, pin, victim}
use mini_db.Buffer.Lru.Queue.{
  id_of, Apart, Agrees, queue, values, member, without, id_of-none, id_of-some, back-last,
  values-remove_element, id_of-remove_element, All-remove_element, Distinct-remove_element,
}

pub new_lru-Agrees : Agrees new_lru × (queue new_lru ≡ [])
unfolding new_lru lookup id_of
new_lru-Agrees = (record { linked = λ f. refl; distinct = tt; old = tt }, refl)

older : (n : ℕ) (xs : List Element) → All (λ x. x.id < n) xs → All (λ x. x.id < n + 1) xs
older n [] h = tt
older n (x ∷ xs) h = (omega arith, older n xs h.1)

fresh-Apart :
    (n f : ℕ) (xs : List Element)
    → All (λ x. x.id < n) xs
    → All (λ x. x.value ≢ f) xs
    → All (Apart (record { id = n; value = f })) xs
fresh-Apart n f [] h k = tt
fresh-Apart n f (x ∷ xs) h k = ((omega arith, k.0), fresh-Apart n f xs h.1 k.1)

unpin_tracked : (f e : ℕ) (r : Lru) → lookup f r.index ≡ some e → unpin f r ≡ r
unfolding unpin
unpin_tracked f e r h = ground arith

abbrev entered : ℕ → Lru → Lru
entered f r = record {
  order = record { id = r.fresh; value = f } ∷ r.order;
  index = insert f r.fresh r.index;
  fresh = r.fresh + 1;
}

unpin_new : (f : ℕ) (r : Lru) → lookup f r.index ≡ none → unpin f r ≡ entered f r
unfolding unpin
unpin_new f r h = ground arith

entered-Agrees : (f : ℕ) (r : Lru) → Agrees r → id_of f r.order ≡ none → Agrees (entered f r)
entered-Agrees f r a h = record {
  linked = λ g. unfold id_of in ground (arith, lookup-insert f g r.fresh r.index, a.linked g);
  distinct = (fresh-Apart r.fresh f r.order a.old (id_of-none f r.order h).1, a.distinct);
  old = (omega arith, older r.fresh r.order a.old);
}

abbrev taken : ℕ → ℕ → Lru → Lru
taken f e r = record r { order = remove_element e r.order; index = remove f r.index }

taken-Agrees : (f e : ℕ) (r : Lru) → Agrees r → id_of f r.order ≡ some e → Agrees (taken f e r)
taken-Agrees f e r a h = record {
  linked = λ g. ground (
    arith,
    lookup-remove f g r.index,
    a.linked g,
    id_of-remove_element f e g r.order a.distinct h,
  );
  distinct = Distinct-remove_element e r.order a.distinct;
  old = All-remove_element (λ x. x.id < r.fresh) e r.order a.old;
}

without_absent : (f : ℕ) (q : List ℕ) → member f q ≡ false → without f q ≡ q
unfolding member without
without_absent f [] h = refl
without_absent f (g ∷ q) h = ground (arith, without_absent f q)

-- Unpin puts a frame that is not tracked at the front of the queue, leaves the queue alone if it is
-- tracked, and keeps list and map in agreement.
pub unpin-queue :
    (f : ℕ) (r : Lru)
    → Agrees r
    → Agrees (unpin f r)
      × (queue (unpin f r) ≡ (if member f (queue r) then queue r else f ∷ queue r))
unpin-queue f r a = elim (Option-cases (lookup f r.index)) [
  | inl absent ↦
      let gone = sym (a.linked f) ∙ absent in
      rw (unpin_new f r absent, (id_of-none f r.order gone).0) (entered-Agrees f r a gone, refl)
  | inr (e, present) ↦
      rw (unpin_tracked f e r present, id_of-some f e r.order (sym (a.linked f) ∙ present))
        (a, refl)
]

pin_untracked : (f : ℕ) (r : Lru) → lookup f r.index ≡ none → pin f r ≡ r
unfolding pin
pin_untracked f r h = ground arith

pin_tracked : (f e : ℕ) (r : Lru) → lookup f r.index ≡ some e → pin f r ≡ taken f e r
unfolding pin
pin_tracked f e r h = ground arith

-- Pin takes a frame out of the queue, wherever it stands, and keeps list and map in agreement.
pub pin-queue :
    (f : ℕ) (r : Lru) → Agrees r → Agrees (pin f r) × (queue (pin f r) ≡ without f (queue r))
pin-queue f r a = elim (Option-cases (lookup f r.index)) [
  | inl absent ↦
      let gone = id_of-none f r.order (sym (a.linked f) ∙ absent) in
      rw (pin_untracked f r absent) (a, sym (without_absent f (queue r) gone.0))
  | inr (e, present) ↦
      let found = sym (a.linked f) ∙ present in
      rw (pin_tracked f e r present)
        (taken-Agrees f e r a found, values-remove_element f e r.order a.distinct found)
]

back-none : (xs : List Element) → back xs ≡ none → xs ≡ []
unfolding back
back-none [] h = refl
back-none (x ∷ []) h = cc
back-none (x ∷ y ∷ xs) h = absurd (cons-ne-nil (back-none (y ∷ xs) h))
  where
    cons-ne-nil : y ∷ xs ≡ [] → ⊥
    cons-ne-nil e = cc

victim-none : (r : Lru) → back r.order ≡ none → victim r ≡ (r, none)
unfolding victim
victim-none r h = ground arith

victim-some :
    (r : Lru) (x : Element)
    → back r.order ≡ some x
    → victim r ≡ (taken x.value x.id r, some x.value)
unfolding victim
victim-some r x h = rw (h, victim)

-- Victim takes the frame at the back of the queue, the one that became evictable first; it finds
-- none exactly when the queue is empty.
pub victim-queue :
    (r : Lru)
    → Agrees r
    → ((queue r ≡ []) × (victim r ≡ (r, none)))
      ⊎ ((f : ℕ) × (s : Lru) × (victim r ≡ (s, some f)) × Agrees s × (queue r ≡ queue s ++ f ∷ []))
victim-queue r a = elim (Option-cases (back r.order)) [
  | inl empty ↦ inl (ap values (back-none r.order empty), victim-none r empty)
  | inr (x, last) ↦
      let (found, split) = back-last r.order x a.distinct last in
      inr (
        x.value,
        taken x.value x.id r,
        victim-some r x last,
        taken-Agrees x.value x.id r a found,
        split,
      )
]
