-- ===== src/Errors.antt =====
-- errors/errors.go, topo/errors.go and the retry loop of topo/topo.go.
-- An `error` that may be nil is an `Option Error`. What the MongoDB driver returns is `driver d`:
-- `d` holds the answers that the driver's own accessors give on it (mongo.IsNetworkError,
-- mongo.IsTimeout, HasErrorLabel, the fields of mongo.CommandError and mongo.WriteException).
-- The arguments of a formatted message are left out of its text.
pub mod Retry
pub mod Transient
mod Tests
use Prim.Native.String.{◌++◌ as str_append}
use percona_link_mongodb.Prelude.{
  ℕ, String, Bool, true, false, ◌&&◌, ◌||◌, Option, none, some, List, [], ◌∷◌, contains, any, ◌==◌,
  nat_eq, string_eq, if◌then◌else◌,
}

-- A mongo.CommandError.
pub record CommandError : Type 0 where
  pub name : String
  pub code : ℕ
  pub says_dropped : Bool  -- the message holds "collection dropped" or "index '_id_' dropped"
  pub says_renamed : Bool  -- the message holds "collection renamed"

-- A mongo.WriteException: the codes of its write errors and of its write concern error.
pub record WriteException : Type 0 where
  pub write_errors : List ℕ
  pub write_concern_error : Option ℕ

pub record DriverError : Type 0 where
  pub network : Bool
  pub timeout : Bool
  pub retryable_label : Bool  -- HasErrorLabel("RetryableWriteError")
  pub duplicate_key : Bool
  pub command : Option CommandError
  pub write : Option WriteException

pub data Error : Type 0 where
  new : String → Error
  driver : DriverError → Error
  canceled deadline_exceeded no_documents : Error
  sentinel : String → Error  -- a package's error variable, which errors.Is finds
  namespace_not_found : String → String → Error  -- NamespaceNotFoundError of pcsm/clone.go
  wrapped : Error → String → Error

-- errors.Wrap and errors.Wrapf
unfoldable pub wrap : Option Error → String → Option Error
wrap none text = none
wrap (some cause) text = if text == "" then some cause else some (wrapped cause text)

-- The error variables of the packages pcsm and topo.
abbrev pub err_timeseries_unsupported : Error
err_timeseries_unsupported = sentinel "timeseries is not supported"

abbrev pub err_not_found : Error
err_not_found = sentinel "not found"

-- err.Error(); `text` is the text of the errors that other packages make.
unfoldable pub message : (Error → String) → Error → String
message text (wrapped e context) = str_append context (str_append ": " (message text e))
message text (new msg) = msg
message text (driver d) = text (driver d)
message text canceled = text canceled
message text deadline_exceeded = text deadline_exceeded
message text no_documents = text no_documents
message text (sentinel msg) = msg
message text (namespace_not_found db coll) =
    str_append "collection not found: " (str_append db (str_append "." coll))

-- The driver's error that errors.As finds under the wrapping.
unfoldable pub cause_of : Error → Option DriverError
cause_of (driver d) = some d
cause_of (wrapped e text) = cause_of e
cause_of (new text) = none
cause_of canceled = none
cause_of deadline_exceeded = none
cause_of no_documents = none
cause_of (sentinel msg) = none
cause_of (namespace_not_found db coll) = none

unfoldable pub is_deadline_exceeded : Error → Bool
is_deadline_exceeded deadline_exceeded = true
is_deadline_exceeded (wrapped e text) = is_deadline_exceeded e
is_deadline_exceeded (new text) = false
is_deadline_exceeded (driver d) = false
is_deadline_exceeded canceled = false
is_deadline_exceeded no_documents = false
is_deadline_exceeded (sentinel msg) = false
is_deadline_exceeded (namespace_not_found db coll) = false

unfoldable pub is_canceled : Error → Bool
is_canceled canceled = true
is_canceled (wrapped e text) = is_canceled e
is_canceled (new text) = false
is_canceled (driver d) = false
is_canceled deadline_exceeded = false
is_canceled no_documents = false
is_canceled (sentinel msg) = false
is_canceled (namespace_not_found db coll) = false

-- errors.Is(err, v) for an error variable v; `name` stands for the variable.
unfoldable pub is_sentinel : String → Error → Bool
is_sentinel name (sentinel msg) = msg == name
is_sentinel name (wrapped e text) = is_sentinel name e
is_sentinel name (new text) = false
is_sentinel name (driver d) = false
is_sentinel name canceled = false
is_sentinel name deadline_exceeded = false
is_sentinel name no_documents = false
is_sentinel name (namespace_not_found db coll) = false

-- errors.Is(err, mongo.ErrNoDocuments)
unfoldable pub is_no_documents : Error → Bool
is_no_documents no_documents = true
is_no_documents (wrapped e text) = is_no_documents e
is_no_documents (new text) = false
is_no_documents (driver d) = false
is_no_documents canceled = false
is_no_documents deadline_exceeded = false
is_no_documents (sentinel msg) = false
is_no_documents (namespace_not_found db coll) = false

-- errors.As(err, &NamespaceNotFoundError{})
unfoldable pub is_missing_namespace : Error → Bool
is_missing_namespace (namespace_not_found db coll) = true
is_missing_namespace (wrapped e text) = is_missing_namespace e
is_missing_namespace (new text) = false
is_missing_namespace (driver d) = false
is_missing_namespace canceled = false
is_missing_namespace deadline_exceeded = false
is_missing_namespace no_documents = false
is_missing_namespace (sentinel msg) = false

unfoldable pub command_of : Error → Option CommandError
unfolding cause_of
command_of e = elim (cause_of e) [ none ↦ none | some d ↦ d.command ]

unfoldable pub is_mongo_command_error : Error → String → Bool
unfolding command_of
is_mongo_command_error e name = elim (command_of e) [ none ↦ false | some c ↦ c.name == name ]

unfoldable pub is_index_not_found : Error → Bool
unfolding is_mongo_command_error
is_index_not_found e = is_mongo_command_error e "IndexNotFound"

unfoldable pub is_namespace_not_found : Error → Bool
unfolding is_mongo_command_error
is_namespace_not_found e = is_mongo_command_error e "NamespaceNotFound"

unfoldable pub is_namespace_exists : Error → Bool
unfolding is_mongo_command_error
is_namespace_exists e = is_mongo_command_error e "NamespaceExists"

unfoldable pub is_change_stream_history_lost : Error → Bool
unfolding is_mongo_command_error
is_change_stream_history_lost e = is_mongo_command_error e "ChangeStreamHistoryLost"

unfoldable pub is_capped_position_lost : Error → Bool
unfolding is_mongo_command_error
is_capped_position_lost e = is_mongo_command_error e "CappedPositionLost"

unfoldable pub is_collection_dropped : Error → Bool
unfolding command_of
is_collection_dropped e = elim (command_of e) [
  | none ↦ false
  | some c ↦ (c.name == "QueryPlanKilled") && c.says_dropped
]

unfoldable pub is_collection_renamed : Error → Bool
unfolding command_of
is_collection_renamed e = elim (command_of e) [
  | none ↦ false
  | some c ↦ (c.name == "QueryPlanKilled") && c.says_renamed
]

abbrev pub transient_error_codes : List ℕ
transient_error_codes = 11602 ∷ 91 ∷ 189 ∷ 10107 ∷ 13435 ∷ []

-- err.(mongo.LabeledError) looks at the outermost error alone.
unfoldable pub has_retryable_label : Error → Bool
has_retryable_label (driver d) = d.retryable_label
has_retryable_label (wrapped e text) = false
has_retryable_label (new text) = false
has_retryable_label canceled = false
has_retryable_label deadline_exceeded = false
has_retryable_label no_documents = false
has_retryable_label (sentinel msg) = false
has_retryable_label (namespace_not_found db coll) = false

is_transient_code : ℕ → Bool
is_transient_code c = contains transient_error_codes c

unfoldable pub has_transient_code : DriverError → Bool
unfolding is_transient_code
has_transient_code d =
    (elim d.write [
      | none ↦ false
      | some w ↦
          any is_transient_code w.write_errors
          || (elim w.write_concern_error [ none ↦ false | some c ↦ is_transient_code c ])
    ])
    || (elim d.command [ none ↦ false | some c ↦ is_transient_code c.code ])

-- mongo.IsNetworkError and mongo.IsTimeout look under the wrapping, as errors.Is does.
unfoldable pub is_transient : Error → Bool
unfolding cause_of is_deadline_exceeded has_retryable_label has_transient_code
is_transient e = elim (cause_of e) [
  | none ↦ is_deadline_exceeded e
  | some d ↦
      d.network
      || d.timeout
      || is_deadline_exceeded e
      || has_retryable_label e
      || has_transient_code d
]
