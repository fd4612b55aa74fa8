-- ===== src/Clone/Tests.antt =====
-- Witnesses of the clone.
use percona_link_mongodb.Prelude.{◌≡◌, refl, String, none, some, [], ◌∷◌}
use percona_link_mongodb.Bson.{pos}
use percona_link_mongodb.Errors.{Error, new}
use percona_link_mongodb.Events.{Namespace}
use percona_link_mongodb.Clone.{Clone, new_clone, checkpoint, saved, recover, size_of, renamed}
use percona_link_mongodb.Clone.Sizes.{size_of-renamed}
use percona_link_mongodb.Clone.Recovery.{IsRestored, recover-clone_checkpoint}

abbrev ns_of : String → Namespace
ns_of coll = record { database = "db"; collection = coll }

abbrev cloning : Clone
cloning = record new_clone {
  size_map = (ns_of "a", record { uuid = none; size = 30; count = pos 3 }) ∷ [];
  total_size = 100;
  start_time = 5;
  finish_ts = record { t = 8; i = 1 };
  err = some (new "copy");
}

size_of-renamed_example :
    size_of (ns_of "b") (renamed (ns_of "a") (ns_of "b") cloning).size_map
    ≡ size_of (ns_of "b") cloning.size_map
size_of-renamed_example = size_of-renamed (ns_of "a") (ns_of "b") (ns_of "b") cloning

abbrev text : Error → String
text e = "driver"

recover-clone_checkpoint_example :
    let (err, c') = recover (saved text cloning) new_clone in
    (err ≡ none) × IsRestored text cloning c'
unfolding checkpoint
recover-clone_checkpoint_example = recover-clone_checkpoint text cloning (saved text cloning) refl
