-- ===== src/Pcsm/Recovery/Samples.antt =====
-- A codec of the checkpoints of pcsm/pcsm.go, for the witnesses.
use mathlib.Core.Option
use percona_link_mongodb.Prelude.{◌≡◌, refl, ap, sym}
use percona_link_mongodb.Exec.{Result, ok}
use percona_link_mongodb.Pcsm.Checkpoints.{Checkpoint, Codec}
use percona_link_mongodb.Pcsm.Recovery.Stored.{IsCodec, clone_in_ms, repl_in_ms}

-- Marshal and Unmarshal, with data that are the checkpoint whose times are in milliseconds.
abbrev pub codec : Codec Checkpoint
codec = record {
  marshal = λ cp.
      ok (record cp {
        clone = Option.map clone_in_ms cp.clone;
        repl = Option.map repl_in_ms cp.repl;
      });
  unmarshal = λ d. ok d;
}

ok-injective : (a b : Checkpoint) → ◌≡◌ {A = Result Checkpoint} (ok a) (ok b) → a ≡ b
ok-injective a b h = cc h

pub codec-IsCodec : IsCodec codec
codec-IsCodec cp d h =
    let kept : Checkpoint = record cp {
      clone = Option.map clone_in_ms cp.clone;
      repl = Option.map repl_in_ms cp.repl;
    } in
    (
      kept,
      ap (λ x. ok x) (sym (ok-injective kept d h)),
      record { fields = refl; catalog = λ db coll. refl },
    )
