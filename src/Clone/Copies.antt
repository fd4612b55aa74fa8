-- ===== src/Clone/Copies.antt =====
-- Witnesses of the copying of a clone, on a source with one database and a copy of two batches.
use mathlib.Core.List.{Permᴰ}
use percona_link_mongodb.Prelude.Maps.{lookup}
use percona_link_mongodb.Bson.{Timestamp, str, pos}
use percona_link_mongodb.Prelude.{
  ℕ, ◌+◌, String, Bool, none, [], ◌∷◌, map, arith, ◌≡◌, ◌==◌, string_eq,
}
use percona_link_mongodb.Exec.{ok}
use percona_link_mongodb.Exec.Rules.{Outcome}
use percona_link_mongodb.Events.{Namespace, CreateCollectionOptions}
use percona_link_mongodb.Target.{Target}
use percona_link_mongodb.Topo.Samples.{driver}
use percona_link_mongodb.Clone.Recorded.Prepared.{GivesTime, Recorded, prepare-Recorded}
use percona_link_mongodb.Clone.{SizeMapElem, new_clone, size_of}
use percona_link_mongodb.Clone.Collect.{collect, list_prioritized_namespaces, info_of}
use percona_link_mongodb.Clone.Copying.{Cloning, prepare, Parts, do_collection_clone}
use percona_link_mongodb.Clone.Accounts.{Cleared, OthersKept, do_collection_clone-Cleared}
use percona_link_mongodb.Clone.Listed.{AreSelected, collect-AreSelected}
use percona_link_mongodb.Clone.Priority.{IsDescending, list_prioritized_namespaces-IsDescending}

abbrev target : Target ℕ
target = record {
  run_command = λ db d w. (none, w + 1);
  drop = λ db coll w. (none, w + 1);
  drop_index = λ db coll name w. (none, w + 1);
  list_collection_names = λ db w. (none, [], w + 1);
  encode_index = λ s. str s.name;
  simple_collation = [];
}

abbrev options : CreateCollectionOptions
options = record {
  clustered_index = none;
  capped = none;
  size = none;
  max_docs = none;
  view_on = "";
  pipeline = [];
  collation = none;
  change_stream_pre_and_post_images = none;
  validator = none;
  validation_level = none;
  validation_action = none;
  storage_engine = none;
  index_option_defaults = none;
}

abbrev parts : Parts ℕ
parts = record {
  source = driver;
  target = target;
  unmarshal = λ b. ok options;
  copy = λ ns spec w. (
    record { err = none; size_bytes = 12; count = 1 }
        ∷ record { err = none; size_bytes = 25; count = 2 }
        ∷ [],
    w + 2,
  );
}

abbrev ns_a : Namespace
ns_a = record { database = "db"; collection = "a" }

abbrev ns_b : Namespace
ns_b = record { database = "db"; collection = "b" }

abbrev elem_of_size : ℕ → SizeMapElem
elem_of_size n = record { uuid = none; size = n; count = pos 3 }

abbrev cloning : Cloning ℕ
cloning = record {
  clone = record new_clone {
    size_map = (ns_a, elem_of_size 30) ∷ (ns_b, elem_of_size 50) ∷ [];
    total_size = 80;
  };
  catalog = [];
  world = 0;
}

do_collection_clone-Cleared_example :
    Outcome
      (λ v s'. Cleared ns_a cloning.clone s'.clone)
      (λ s'. OthersKept ns_a cloning.clone s'.clone)
      (do_collection_clone parts ns_a cloning)
unfolding size_of lookup
do_collection_clone-Cleared_example = do_collection_clone-Cleared parts ns_a cloning (omega arith)

abbrev only_a : String → String → Bool
only_a db coll = coll == "a"

collect-AreSelected_example :
    Outcome
      (λ sizes (w : ℕ). AreSelected driver only_a sizes)
      (λ w. w ≡ w)
      (collect driver only_a 0)
collect-AreSelected_example = collect-AreSelected driver only_a 0

list_prioritized_namespaces-IsDescending_example :
    IsDescending cloning.clone.size_map (list_prioritized_namespaces cloning.clone)
    × Permᴰ (list_prioritized_namespaces cloning.clone) (map info_of cloning.clone.size_map)
list_prioritized_namespaces-IsDescending_example =
    list_prioritized_namespaces-IsDescending cloning.clone

prepare-Recorded_example :
    Outcome
      (λ spec s'.
        (ts : Timestamp) × GivesTime parts ns_a cloning ts × Recorded parts ns_a ts spec s')
      (λ s'. s' ≡ s')
      (prepare parts ns_a cloning)
prepare-Recorded_example = prepare-Recorded parts ns_a cloning (λ spec opts g e. ground arith)
