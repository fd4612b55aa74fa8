-- ===== src/Bulk/Tests.antt =====
-- Witnesses and tests of the bulk writes.
use percona_link_mongodb.Prelude.Maps.{Assoc, lookup, insert}
use percona_link_mongodb.Bson.{pos, Value, str, int}
use percona_link_mongodb.Prelude.{ℕ, ◌+◌, ◌≡◌, refl, String, false, none, List, [], ◌∷◌, arith}
use percona_link_mongodb.Errors.{wrap}
use percona_link_mongodb.Events.{Namespace, namespace_eq, UpdateDescription}
use percona_link_mongodb.Bulk.{
  WriteModel, Bulk, delete_model, add, full, empty, new_client_bulk_write,
  new_collection_bulk_write, BulkTarget, do_bulk, coll_write, coll_loop,
}
use percona_link_mongodb.Bulk.Queue.{add_all, queued, size, writes_of, queues_agree}
use percona_link_mongodb.Bulk.Flush.{IsValid, limit, total_ops, DoneAs, add-IsValid, do_bulk-DoneAs}
use percona_link_mongodb.Bulk.Update.{
  split_dot, join_init, last_part, atoi, element_stage, update_stage, has_conflict,
  collect_update_ops,
}
use percona_link_mongodb.Bulk.Fields.{
  read_update, read_update-collect_update_ops, update_stage-name_after_index,
}

abbrev ns_a : Namespace
ns_a = record { database = "db"; collection = "a" }

abbrev ns_b : Namespace
ns_b = record { database = "db"; collection = "b" }

abbrev del : ℕ → WriteModel
del n = delete_model (("_id", int (pos n)) ∷ [])

abbrev three : List (Namespace × WriteModel)
three = (ns_a, del 1) ∷ (ns_b, del 2) ∷ (ns_a, del 3) ∷ []

queues_agree_example :
    (queued (add_all (λ n. n + n) three (new_client_bulk_write 4)) ns_a ≡ writes_of ns_a three)
    × (queued (add_all (λ n. n + n) three (new_collection_bulk_write 4)) ns_a
        ≡ writes_of ns_a three)
queues_agree_example = queues_agree (λ n. n + n) three 4 4 ns_a

abbrev one_queued : Bulk
one_queued = add (λ n. n + n) ns_a (del 1) (new_collection_bulk_write 2)

new-IsValid : IsValid (new_collection_bulk_write 2)
unfolding new_collection_bulk_write total_ops size
new-IsValid = record { counted = refl; bounded = omega arith }

new-not_full : full (new_collection_bulk_write 2) ≡ false
unfolding full new_collection_bulk_write
new-not_full = refl

add-IsValid_example :
    IsValid one_queued
    × (limit one_queued ≡ limit (new_collection_bulk_write 2))
    × (size one_queued ≡ size (new_collection_bulk_write 2) + 1)
    × (empty one_queued ≡ false)
add-IsValid_example =
    add-IsValid (λ n. n + n) ns_a (del 1) (new_collection_bulk_write 2) new-IsValid new-not_full

-- A target that times out as often as its state says, and then counts the writes.
abbrev flaky : BulkTarget (ℕ × ℕ)
flaky = record {
  client_bulk_write = λ ws w. (none, w);
  coll_bulk_write = λ ns ops w. (none, (w.0, w.1 + 1));
}

do_bulk-DoneAs_example :
    let (err, n, o', w') = do_bulk flaky one_queued (0, 0) in DoneAs one_queued err n o'
do_bulk-DoneAs_example = do_bulk-DoneAs flaky one_queued (0, 0) add-IsValid_example.0

flush_runs : (do_bulk flaky one_queued (0, 0)).1 ≡ 1
unfolding do_bulk coll_loop coll_write add new_collection_bulk_write wrap insert lookup
flush_runs = refl

abbrev description : UpdateDescription
description = record {
  disambiguated_paths = [];
  removed_fields = "x" ∷ "y" ∷ [];
  truncated_arrays = record { field = "list"; new_size = pos 3 } ∷ [];
  updated_fields = ("name", str "n") ∷ [];
}

read_update-collect_update_ops_example :
    read_update (collect_update_ops description)
    ≡ (description.updated_fields, description.removed_fields, description.truncated_arrays)
unfolding has_conflict
read_update-collect_update_ops_example = read_update-collect_update_ops description refl

-- The example of MongoDB's documentation: field "0" of the document at residences[0].
abbrev paths : Assoc String (List Value)
paths = ("residences.0.0", str "residences" ∷ int (pos 0) ∷ str "0" ∷ []) ∷ []

update_stage-name_after_index_example :
    update_stage paths ("residences.0.0", str "v")
    ≡ element_stage
        (join_init (split_dot "residences.0.0"))
        (atoi (last_part (split_dot "residences.0.0"))).0
        (str "v")
unfolding lookup
update_stage-name_after_index_example =
    update_stage-name_after_index paths "residences.0.0" "0" (str "v")
      (str "residences" ∷ int (pos 0) ∷ []) refl refl

residences_stage :
    update_stage paths ("residences.0.0", str "v") ≡ element_stage "residences.0" (pos 0) (str "v")
unfolding update_stage lookup split_dot join_init last_part atoi
residences_stage = refl
