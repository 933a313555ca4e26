-- ===== src/Buffer/Lru/Tests.antt =====
-- The replacer on a short run, and its laws there.
use mini_db.Base.{ℕ, ◌≡◌, refl, ◌⊎◌, [], ◌∷◌, ◌++◌, none, some, if◌then◌else◌}
use mini_db.Base.Maps.{lookup, insert, remove}
use mini_db.Buffer.Lru.{Lru, new_lru, remove_element, back, unpin, pin, victim}
use mini_db.Buffer.Lru.Queue.{Agrees, queue, member}
use mini_db.Buffer.Lru.Laws.{new_lru-Agrees, unpin-queue, victim-queue}

two_idle : Lru
two_idle = unpin 4 (unpin 7 new_lru)

-- 7 became evictable first, so it is the victim, unless it is pinned again; a second unpin changes
-- nothing.
three_ways :
    ((victim two_idle).1 ≡ some 7)
    × ((victim (pin 7 two_idle)).1 ≡ some 4)
    × (queue (unpin 7 two_idle) ≡ 4 ∷ 7 ∷ [])
unfolding two_idle new_lru unpin pin victim back remove_element lookup insert remove
three_ways = (refl, refl, refl)

two_idle-Agrees : Agrees two_idle
unfolding two_idle
two_idle-Agrees = (unpin-queue 4 (unpin 7 new_lru) (unpin-queue 7 new_lru new_lru-Agrees.0).0).0

unpin-queue_example :
    Agrees (unpin 9 two_idle)
    × (queue (unpin 9 two_idle)
        ≡ (if member 9 (queue two_idle) then queue two_idle else 9 ∷ queue two_idle))
unpin-queue_example = unpin-queue 9 two_idle two_idle-Agrees

victim-queue_example :
    ((queue two_idle ≡ []) × (victim two_idle ≡ (two_idle, none)))
    ⊎ ((f : ℕ) × (s : Lru) × (victim two_idle ≡ (s, some f))
        × Agrees s
        × (queue two_idle ≡ queue s ++ f ∷ []))
victim-queue_example = victim-queue two_idle two_idle-Agrees
