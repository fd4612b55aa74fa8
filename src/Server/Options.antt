-- ===== src/Server/Options.antt =====
-- The options of the server in main.go: serverOptions.validate and getPort. `atoi` reads a decimal
-- number as strconv does.
pub mod Valid
use percona_link_mongodb.Bson.{ℤ, pos, negsuc}
use percona_link_mongodb.Prelude.{
  ℕ, ◌^◌, String, Bool, true, false, not, ◌&&◌, ◌||◌, Option, none, some, ltb, leb, ◌==◌, string_eq,
  if◌then◌else◌,
}
use percona_link_mongodb.Errors.{Error, new}
use percona_link_mongodb.Exec.{Result, ok, fail}
use percona_link_mongodb.Bulk.Update.{atoi}

pub record ServerOptions : Type 0 where
  pub port : ℤ
  pub source_uri : String
  pub target_uri : String
  pub start : Bool
  pub pause : Bool

-- s.port <= 1024 || s.port > 65535
unfoldable pub is_out_of_range : ℤ → Bool
is_out_of_range (pos n) = leb n 1024 || ltb 65535 n
is_out_of_range (negsuc n) = true

unfoldable pub validate : ServerOptions → Option Error
unfolding is_out_of_range
validate s =
    if is_out_of_range s.port
    then some (new "port value is outside the supported range [1024 - 65535]")
    else if (s.source_uri == "") && (s.target_uri == "")
    then some (new "source URI and target URI are empty")
    else if s.source_uri == ""
    then some (new "source URI is empty")
    else if s.target_uri == ""
    then some (new "target URI is empty")
    else if s.source_uri == s.target_uri
    then some (new "source URI and target URI are identical")
    else none

-- The range of an int32.
unfoldable pub is_int32 : ℤ → Bool
is_int32 (pos n) = ltb n (2 ^ 31)
is_int32 (negsuc n) = ltb n (2 ^ 31)

-- strconv.ParseInt(s, 10, 32)
unfoldable pub parse_int32 : String → Option ℤ
unfolding atoi is_int32
parse_int32 s = let (n, valid) = atoi s in if valid && is_int32 n then some n else none

-- `changed` says that the flag is given; `port_var` is the environment variable PCSM_PORT.
unfoldable pub get_port : ℤ → Bool → String → Result ℤ
unfolding parse_int32
get_port flag changed port_var =
    if changed then ok flag else if port_var == "" then ok flag else elim (parse_int32 port_var) [
      | none ↦ fail (new "invalid environment variable PCSM_PORT='%s'")
      | some n ↦ ok n
    ]
