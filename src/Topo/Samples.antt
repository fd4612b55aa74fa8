-- ===== src/Topo/Samples.antt =====
-- A source cluster for the tests: it has one database, and answers every query.
use percona_link_mongodb.Bson.{pos}
use percona_link_mongodb.Prelude.{ℕ, ◌+◌, String, true, false, none, some, [], ◌∷◌}
use percona_link_mongodb.Exec.{Exec, ok}
use percona_link_mongodb.Topo.{Driver, CollectionSpecification, type_collection}

-- The world counts the calls.
abbrev pub answer : {A : Type 0} → A → Exec ℕ A
answer a w = (ok a, w + 1)

abbrev spec_of : String → CollectionSpecification
spec_of name = record { name = name; kind = type_collection; options = []; uuid = some (1 ∷ []) }

abbrev pub driver : Driver ℕ
driver = record {
  run_command = λ db d. answer [];
  cluster_time_of = λ b. some (record { t = 7; i = 1 });
  list_database_names = λ f. answer ("percona_clustersync_mongodb" ∷ "db" ∷ []);
  list_collection_names = λ db f. answer ("a" ∷ []);
  list_collection_specifications = λ db f. answer (spec_of "a" ∷ spec_of "b" ∷ []);
  list_indexes = λ db coll. answer 0;
  all_indexes = λ c. answer [];
  aggregate = λ db coll p. answer 0;
  all_names = λ c. answer [];
  next = λ c. answer true;
  decode_stats = λ c. answer (record { count = pos 3; size = pos 30; avg_obj_size = pos 10 });
  find_sharding = λ f. answer (record { shard_key = none; unique = false });
  find_chunks = λ f. answer 0;
  cursor_err = λ c w. none;
  all_chunks = λ c. answer [];
}
