-- ===== src/Server.antt =====
-- The HTTP server of main.go: its handlers round the operations of pcsm/pcsm.go, and in the children
-- the options and the start of the server. The JSON of a request is decoded by the parameters of
-- `Decoders`, and the text of an error by `text`.
pub mod Options
pub mod Setup
pub mod Guards
mod Tests
mod Cases
use Prim.Native.String.{◌++◌ as str_append}
use percona_link_mongodb.Bson.{ℤ, pos, negsuc, Timestamp}
use percona_link_mongodb.Prelude.{
  ℕ, String, Bool, true, false, not, Option, none, some, List, [], ltb, nat_eqb, is_some,
  if◌then◌else◌, ◌==◌, string_eq,
}
use percona_link_mongodb.Errors.{Error, message, is_sentinel}
use percona_link_mongodb.Exec.{Result}
use percona_link_mongodb.Repl.{Repl, is_zero}
use percona_link_mongodb.Pcsm.{
  State, failed, idle, running, paused, finalizing, finalized, Pcsm, StartOptions, is_idle,
}
use percona_link_mongodb.Pcsm.Moves.{
  Command, start_command, pause_command, resume_command, finalize_command, run_command,
}
use percona_link_mongodb.Pcsm.Status.{Status, status}

-- The parts of an http.Request that the handlers read; a body that cannot be read is `none`.
pub record Request : Type 0 where
  pub method : String
  pub content_length : ℤ
  pub body : Option String

-- startResponse, finalizeResponse, pauseResponse and resumeResponse, which have the same fields.
pub record Response : Type 0 where
  pub ok : Bool
  pub err : String

pub record StatusInitialSyncResponse : Type 0 where
  pub lag_time : ℤ
  pub estimated_clone_size : ℕ
  pub cloned_size : ℕ
  pub completed : Bool
  pub clone_completed : Bool

pub record StatusResponse : Type 0 where
  pub ok : Bool
  pub err : String
  pub state : State
  pub info : String
  pub lag_time : ℤ
  pub events_processed : ℕ
  pub last_replicated_op_time : Option Timestamp
  pub initial_sync : Option StatusInitialSyncResponse

-- An answer with a body, or the HTTP status of http.Error.
pub data Answer (A : Type 0) : Type 0 where
  answered : A → Answer A
  refused : ℕ → Answer A

-- MaxRequestSize
abbrev pub max_request_size : ℕ
max_request_size = 1048576

unfoldable pub is_too_large : ℤ → Bool
is_too_large (pos n) = ltb max_request_size n
is_too_large (negsuc n) = false

unfoldable pub has_content : ℤ → Bool
has_content (pos n) = not (nat_eqb n 0)
has_content (negsuc n) = true

-- The guards at the head of each handler.
unfoldable pub guard : String → Request → Option ℕ
unfolding is_too_large
guard method req =
    if not (req.method == method)
    then some 405
    else if is_too_large req.content_length
    then some 413
    else none

-- The parameters of a request, `default` where it has no content.
module _ {A : Type 0} (unmarshal : String → Option A) (default : A) where
  unfoldable pub read_body : Option String → Answer A
  read_body none = refused 500
  read_body (some text) = elim (unmarshal text) [ none ↦ refused 400 | some a ↦ answered a ]

  unfoldable pub params : Request → Answer A
  unfolding read_body has_content
  params req = if has_content req.content_length then read_body req.body else answered default

-- json.Unmarshal into startRequest, finalizeRequest and resumeRequest.
pub record Decoders : Type 0 where
  pub start_request : String → Option StartOptions
  pub finalize_request : String → Option Bool  -- IgnoreHistoryLost
  pub resume_request : String → Option Bool  -- FromFailure

abbrev pub no_options : StartOptions
no_options = record {
  pause_on_initial_sync = false;
  include_namespaces = [];
  exclude_namespaces = [];
}

-- errors.Is(status.Repl.Err, ErrOplogHistoryLost)
unfoldable pub is_history_lost : Pcsm → Bool
is_history_lost ml = elim ml.repl.err [
  | none ↦ false
  | some e ↦ is_sentinel "oplog history is lost" e
]

unfoldable pub error_of : (Error → String) → Option Error → String
error_of text none = ""
error_of text (some e) = message text e

unfoldable pub info_of : Status → String
info_of s = elim s.state [
  | running ↦
      if not (percona_link_mongodb.Clone.is_finished s.clone)
      then "Initial Sync: Cloning Data"
      else if not s.initial_sync_completed
      then "Initial Sync: Replicating Changes"
      else "Replicating Changes"
  | finalizing ↦ "Finalizing"
  | finalized ↦ "Finalized"
  | failed ↦ "Failed"
  | _ ↦ ""
]

unfoldable pub op_time_of : Timestamp → Option Timestamp
op_time_of ts = if is_zero ts then none else some ts

-- The body of the answer of handleStatus.
unfoldable pub status_response : (Error → String) → Status → StatusResponse
unfolding is_idle error_of info_of op_time_of
status_response text s =
    if is_idle s.state
    then record {
      ok = not (is_some s.error);
      err = error_of text s.error;
      state = s.state;
      info = "";
      lag_time = pos 0;
      events_processed = 0;
      last_replicated_op_time = none;
      initial_sync = none;
    }
    else record {
      ok = not (is_some s.error);
      err = error_of text s.error;
      state = s.state;
      info = info_of s;
      lag_time = s.total_lag_time;
      events_processed = s.repl.events_processed;
      last_replicated_op_time = op_time_of s.repl.last_replicated_op_time;
      initial_sync = some (record {
        lag_time = s.initial_sync_lag_time;
        estimated_clone_size = s.clone.estimated_total_size;
        cloned_size = s.clone.copied_size;
        completed = s.initial_sync_completed;
        clone_completed = percona_link_mongodb.Clone.is_finished s.clone;
      });
    }

pub data Endpoint : Type 0 where
  start_endpoint pause_endpoint resume_endpoint finalize_endpoint : Endpoint

-- `ended` is what the loop of the replication makes of the Repl until it is done.
module _ (after : Timestamp → Timestamp → Bool) (text : Error → String) (decoders : Decoders)
    (ended : Repl → Repl) where
  unfoldable pub handle_status : Result Timestamp → Request → Pcsm → Answer StatusResponse
  unfolding guard
  handle_status source_time req ml = elim (guard "GET" req) [
    | some code ↦ refused code
    | none ↦ answered (status_response text (status after source_time ml))
  ]

  -- The command that a request asks for.
  unfoldable pub command_of : Endpoint → Request → Pcsm → Answer Command
  unfolding params is_history_lost
  command_of start_endpoint req ml = elim (params decoders.start_request no_options req) [
    | refused code ↦ refused code
    | answered options ↦ answered (start_command options)
  ]
  command_of pause_endpoint req ml = answered pause_command
  command_of resume_endpoint req ml = elim (params decoders.resume_request false req) [
    | refused code ↦ refused code
    | answered from_failure ↦ answered (resume_command from_failure)
  ]
  command_of finalize_endpoint req ml = elim (params decoders.finalize_request false req) [
    | refused code ↦ refused code
    | answered ignore ↦ answered (finalize_command ignore (is_history_lost ml) ended)
  ]

  unfoldable pub respond : Option Error × Pcsm → Answer Response × Pcsm
  respond (none, ml) = (answered (record { ok = true; err = "" }), ml)
  respond (some e, ml) = (answered (record { ok = false; err = message text e }), ml)

  unfoldable pub obey : Answer Command → Pcsm → Answer Response × Pcsm
  unfolding respond
  obey (refused code) ml = (refused code, ml)
  obey (answered cmd) ml = respond (run_command after cmd ml)

  -- What the guards let through.
  unfoldable pub passed : Option ℕ → Answer Response × Pcsm → Pcsm → Answer Response × Pcsm
  passed (some code) r ml = (refused code, ml)
  passed none r ml = r

  -- handleStart, handlePause, handleResume and handleFinalize.
  unfoldable pub handle : Endpoint → Request → Pcsm → Answer Response × Pcsm
  unfolding guard command_of obey passed
  handle endpoint req ml = passed (guard "POST" req) (obey (command_of endpoint req ml) ml) ml
