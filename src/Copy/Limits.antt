-- ===== src/Copy/Limits.antt =====
-- The bounds of the copy manager's settings, in pcsm/copy.go.
use percona_link_mongodb.Bson.{ℤ, pos, negsuc}
use percona_link_mongodb.Prelude.{
  if-cases, nat_eqb, ℕ, ◌*◌, ◌/◌, ◌≤◌, ◌≡◌, refl, ◌⊎◌, inl, inr, arith, max,
}
use percona_link_mongodb.Copy.{
  CopyManagerOptions, max_bson_size, min_clone_segment_size_bytes, max_clone_segment_size_bytes,
  max_clone_read_batch_size_bytes, workers, segment_setting, read_batch_setting, copy_settings,
}

workers-positive : (default : ℕ) (n : ℤ) → 1 ≤ default → 1 ≤ workers default n
unfolding workers
workers-positive default (negsuc n) h = h
workers-positive default (pos n) h = ground (arith, h)

segment_setting-bounds :
    (n : ℤ)
    → (segment_setting n ≡ 0)
      ⊎ ((min_clone_segment_size_bytes ≤ segment_setting n)
          × (segment_setting n ≤ max_clone_segment_size_bytes))
unfolding segment_setting
segment_setting-bounds (negsuc n) = inl refl
segment_setting-bounds (pos n) =
    if-cases
      (λ x. (x ≡ 0) ⊎ ((min_clone_segment_size_bytes ≤ x) × (x ≤ max_clone_segment_size_bytes)))
      (nat_eqb n 0) (λ h. inl refl) (λ h. inr (omega arith, omega arith))

read_batch_setting-bounds :
    (n : ℤ)
    → (max_bson_size ≤ read_batch_setting n)
      × (read_batch_setting n ≤ max_clone_read_batch_size_bytes)
unfolding read_batch_setting
read_batch_setting-bounds (negsuc n) = (omega arith, omega arith)
read_batch_setting-bounds (pos n) =
    if-cases (λ x. (max_bson_size ≤ x) × (x ≤ max_clone_read_batch_size_bytes)) (nat_eqb n 0)
      (λ h. (omega arith, omega arith)) (λ h. (omega arith, omega arith))

-- Whatever the options are, on a machine with a processor: the copy manager has a worker of each
-- kind, its segment size is zero (automatic) or within the bounds of a segment, and its read batch
-- is within the bounds of a read batch, so that it holds any document.
pub copy_settings-bounds :
    (cpus : ℕ) (options : CopyManagerOptions)
    → 1 ≤ cpus
    → let s = copy_settings cpus options in
      (1 ≤ s.read_workers)
      × (1 ≤ s.insert_workers)
      × ((s.segment_size ≡ 0)
          ⊎ ((min_clone_segment_size_bytes ≤ s.segment_size)
              × (s.segment_size ≤ max_clone_segment_size_bytes)))
      × (max_bson_size ≤ s.read_batch_size)
      × (s.read_batch_size ≤ max_clone_read_batch_size_bytes)
unfolding copy_settings
copy_settings-bounds cpus options h = (
  workers-positive (max (cpus / 4) 1) options.num_read_workers (omega arith),
  workers-positive (cpus * 2) options.num_insert_workers (omega arith),
  segment_setting-bounds options.segment_size_bytes,
  (read_batch_setting-bounds options.read_batch_size_bytes).0,
  (read_batch_setting-bounds options.read_batch_size_bytes).1,
)
