-- ===== src/Buffer/Lru/Member.antt =====
-- Which frames the replacer tracks, frame by frame, after each operation.
use mini_db.Base.{
  ℕ, ◌≡◌, refl, ap, ◌∙◌, Bool, true, false, List, [], ◌∷◌, ◌++◌, ◌==◌, if◌then◌else◌, All, arith,
}
use mini_db.Buffer.Lru.{Element, Lru, new_lru, unpin, pin}
use mini_db.Buffer.Lru.Queue.{Apart, Distinct, Agrees, queue, values, member, without}
use mini_db.Buffer.Lru.Laws.{unpin-queue, pin-queue}

-- No frame stands in the list twice.
abbrev pub Unique : List ℕ → Type 0
Unique [] = Unit
Unique (f ∷ q) = (member f q ≡ false) × Unique q

pub tracks : ℕ → Lru → Bool
tracks f r = member f (queue r)

absent-values :
    (x : Element) (xs : List Element) → All (Apart x) xs → member x.value (values xs) ≡ false
unfolding member
absent-values x [] h = refl
absent-values x (y ∷ xs) h = ground (arith, h, absent-values x xs h.1)

Distinct-Unique : (xs : List Element) → Distinct xs → Unique (values xs)
Distinct-Unique [] d = tt
Distinct-Unique (x ∷ xs) d = (absent-values x xs d.0, Distinct-Unique xs d.1)

member-without :
    (f g : ℕ) (q : List ℕ)
    → Unique q
    → member g (without f q) ≡ (if f == g then false else member g q)
unfolding member without
member-without f g [] u = ground arith
member-without f g (x ∷ q) u = ground (arith, u.0, member-without f g q u.1)

pub member-append :
    (g f : ℕ) (q : List ℕ) → member g (q ++ f ∷ []) ≡ (if f == g then true else member g q)
unfolding member
member-append g f [] = refl
member-append g f (x ∷ q) = ground (arith, member-append g f q)

Unique-append : (f : ℕ) (q : List ℕ) → Unique (q ++ f ∷ []) → member f q ≡ false
unfolding member
Unique-append f [] u = refl
Unique-append f (x ∷ q) u = ground (arith, u.0, member-append x f q, Unique-append f q u.1)

pub tracks-unpin :
    (f g : ℕ) (r : Lru) → Agrees r → tracks g (unpin f r) ≡ (if f == g then true else tracks g r)
unfolding tracks member
tracks-unpin f g r a = ap (member g) (unpin-queue f r a).1 ∙ ground arith

pub tracks-pin :
    (f g : ℕ) (r : Lru) → Agrees r → tracks g (pin f r) ≡ (if f == g then false else tracks g r)
unfolding tracks
tracks-pin f g r a =
    ap (member g) (pin-queue f r a).1
    ∙ member-without f g (queue r) (Distinct-Unique r.order a.distinct)

-- What Victim takes was tracked, and is no longer.
pub tracks-victim :
    (f g : ℕ) (r s : Lru)
    → Agrees r
    → queue r ≡ queue s ++ f ∷ []
    → (tracks f r ≡ true) × (tracks g s ≡ (if f == g then false else tracks g r))
unfolding tracks
tracks-victim f g r s a e =
    let unique = Distinct-Unique r.order a.distinct in
    let gone = Unique-append f (queue s) (rw (← e) unique) in
    (
      ap (member f) e ∙ (member-append f f (queue s) ∙ ground arith),
      ground (arith, gone, ap (member g) e, member-append g f (queue s)),
    )

pub tracks-new_lru : (f : ℕ) → tracks f new_lru ≡ false
unfolding tracks member new_lru
tracks-new_lru f = refl

-- A victim that is made evictable again enters at the front.
pub queue-unpin_victim :
    (f : ℕ) (r s : Lru)
    → Agrees r
    → Agrees s
    → queue r ≡ queue s ++ f ∷ []
    → queue (unpin f s) ≡ f ∷ queue s
queue-unpin_victim f r s a b e =
    let unique = Distinct-Unique r.order a.distinct in
    let gone = Unique-append f (queue s) (rw (← e) unique) in
    (unpin-queue f s b).1 ∙ ground (arith, gone)
