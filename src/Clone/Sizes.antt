-- ===== src/Clone/Sizes.antt =====
-- The estimate of the size that is left to copy, in pcsm/clone.go.
use percona_link_mongodb.Prelude.Maps.{lookup, remove, lookup-insert, lookup-remove}
use percona_link_mongodb.Prelude.{ℕ, ◌+◌, ◌-◌, ◌≤◌, ◌<◌, ◌^◌, ◌≡◌, arith, ==_iff}
use percona_link_mongodb.Events.{Namespace, namespace_eq}
use percona_link_mongodb.Clone.{Clone, elem_of, minus64, size_of, dropped, adjusted, renamed}

pub size_of-removed : (ns : Namespace) (c : Clone) → size_of ns (remove ns c.size_map) ≡ 0
unfolding size_of elem_of
size_of-removed ns c = ground (arith, lookup-remove ns ns c.size_map, ==_iff ns ns)

-- For a collection whose size is part of the total, the total ends as what it was, less the
-- estimated size of the collection, plus what was copied of it, whether or not the collection was
-- dropped in between, as long as these numbers stay below 2 ^ 64.
adjusted-total_size :
    (ns : Namespace) (total_copied : ℕ) (c : Clone)
    → size_of ns c.size_map ≤ c.total_size
    → c.total_size + total_copied < 2 ^ 64
    → ((adjusted ns total_copied c).total_size
        ≡ c.total_size - size_of ns c.size_map + total_copied)
      × ((adjusted ns total_copied (dropped ns c)).total_size
          ≡ c.total_size - size_of ns c.size_map + total_copied)
unfolding adjusted dropped minus64
adjusted-total_size ns total_copied c part small =
    (omega (arith, part, small), rw (size_of-removed ns c) (omega (arith, part, small)))

-- After the step for a rename the map says for every namespace what it said before (zero for a
-- namespace that it did not have): the new name of the collection gets no size.
pub size_of-renamed :
    (prev_ns ns k : Namespace) (c : Clone)
    → size_of k (renamed prev_ns ns c).size_map ≡ size_of k c.size_map
unfolding renamed size_of elem_of
size_of-renamed prev_ns ns k c = ground (
  arith,
  lookup-insert prev_ns k (elem_of (lookup prev_ns c.size_map)) (remove prev_ns c.size_map),
  lookup-remove prev_ns k c.size_map,
  ==_iff k prev_ns,
  ==_iff prev_ns k,
)
