-- ===== src/Raid/Loot.antt =====
-- What a raid takes.
use norelecbot.Base.{arith, ◌≡◌}
use norelecbot.Base.Int.{min_ℤ, negsuc, pos, ℤ, ◌*ℤ◌, ◌+ℤ◌, ◌-ℤ◌, ◌/ℤ◌, ◌≤ℤ◌}
use norelecbot.Base.Percent.{share-le}
use norelecbot.Raid.Rob.{loot_of}

-- When nothing is negative and the pleading ones ask for at most everything, what is taken and what
-- is spared are not negative, and together they are the lesser of what is there and what the road
-- carries.
pub loot_bounds :
    (theirs carried pleaded : ℤ)
    → pos 0 ≤ℤ theirs
    → pos 0 ≤ℤ carried
    → pos 0 ≤ℤ pleaded
    → pleaded ≤ℤ pos 100
    → let (loot, spared) = loot_of theirs carried pleaded in
      (pos 0 ≤ℤ loot) × (pos 0 ≤ℤ spared) × (loot +ℤ spared ≡ min_ℤ theirs carried)
unfolding loot_of min_ℤ ◌*ℤ◌ ◌/ℤ◌ ◌-ℤ◌ ◌+ℤ◌
loot_bounds (pos t) (pos c) (pos p) a b h k = ground (arith, share-le t p, share-le c p)
loot_bounds (negsuc t) c p a b h k = absurd (omega arith)
loot_bounds (pos t) (negsuc c) p a b h k = absurd (omega arith)
loot_bounds (pos t) (pos c) (negsuc p) a b h k = absurd (omega arith)
