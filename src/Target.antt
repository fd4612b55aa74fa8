-- ===== src/Target.antt =====
-- The target cluster as the catalog uses it: what the MongoDB driver does for each kind of call is
-- a parameter. `retried` is runWithRetry of pcsm/catalog.go round a call whose error is wrapped.
use percona_link_mongodb.Bson.{Bytes, Value, Doc}
use percona_link_mongodb.Prelude.{ℕ, String, Option, List}
use percona_link_mongodb.Errors.{Error, wrap}
use percona_link_mongodb.Errors.Retry.{run_with_retry, default_max_retries}
use percona_link_mongodb.Events.{IndexSpecification}

pub record Target (W : Type 0) : Type 0 where
  pub run_command : String → Doc → W → Option Error × W  -- the database and the command
  pub drop : String → String → W → Option Error × W  -- the database and the collection
  pub drop_index : String → String → String → W → Option Error × W
  pub list_collection_names : String → W → Option Error × List String × W
  pub encode_index : IndexSpecification → Value  -- the BSON of an index specification
  pub simple_collation : Bytes  -- the BSON of { locale: "simple" }

-- topo.DefaultRetryInterval, in seconds
abbrev pub default_retry_interval : ℕ
default_retry_interval = 5

module _ {W : Type 0} where
  abbrev pub wrapped_call : String → (W → Option Error × W) → W → Option Error × W
  wrapped_call text call w = let (err, w') = call w in (wrap err text, w')

  unfoldable pub retried : String → (W → Option Error × W) → W → Option Error × W
  unfolding run_with_retry
  retried text call =
      run_with_retry (wrapped_call text call) default_retry_interval default_max_retries
