-- ===== src/Recovery.antt =====
-- recovery.go: the document that holds the last checkpoint, for any part of the program that is a
-- `Recoverable`. The calls of the driver are the fields of `Documents`; `D` is the data of a
-- checkpoint, and empty data is `none`.
pub mod Saved
mod Tests
use percona_link_mongodb.Prelude.{Bool, true, false, Option, none, some, if◌then◌else◌}
use percona_link_mongodb.Errors.{Error, sentinel, wrap, is_canceled, is_no_documents}
use percona_link_mongodb.Exec.{Exec, Result, ok, fail, wrapping, result_of}

pub record Recoverable (P D : Type 0) : Type 0 where
  pub checkpoint : P → Result (Option D)
  pub recover : D → P → Option Error × P

-- FindOne with Decode, ReplaceOne with upsert, and DeleteOne of the document.
pub record Documents (W D : Type 0) : Type 0 where
  pub find : W → Result D × W
  pub replace : D → W → Option Error × W
  pub delete : W → Option Error × W

abbrev pub err_no_recovery_data : Error
err_no_recovery_data = sentinel "no recovery data"

module _ {W P D : Type 0} (docs : Documents W D) (rec : Recoverable P D) where
  unfoldable pub restored : Result D → P → Option Error × P
  restored (fail e) p = if is_no_documents e then (none, p) else (some (wrapping "find" e), p)
  restored (ok d) p = let (err, p') = rec.recover d p in (wrap err "recover", p')

  unfoldable pub restore : P → W → Option Error × P × W
  unfolding restored
  restore p w = let (r, w') = docs.find w in let (err, p') = restored r p in (err, p', w')

  unfoldable pub save : Result (Option D) → W → Option Error × W
  save (fail e) w = (some (wrapping "checkpoint" e), w)
  save (ok none) w = (some err_no_recovery_data, w)
  save (ok (some d)) w = let (err, w') = docs.replace d w in (wrap err "save", w')

  unfoldable pub do_checkpoint : P → W → Option Error × W
  unfolding save
  do_checkpoint p w = save (rec.checkpoint p) w

  -- One round of RunCheckpointing: the Boolean says that it goes on. Errors are logged.
  unfoldable pub checkpointing : P → W → Bool × W
  unfolding do_checkpoint
  checkpointing p w =
      let (err, w') = do_checkpoint p w in
      elim err [ none ↦ (true, w') | some e ↦ if is_canceled e then (false, w') else (true, w') ]

  unfoldable pub delete_recovery_data : W → Option Error × W
  delete_recovery_data w = docs.delete w
