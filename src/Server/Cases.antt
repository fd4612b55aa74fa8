-- ===== src/Server/Cases.antt =====
-- Witness of the options of the server.
use percona_link_mongodb.Bson.{pos}
use percona_link_mongodb.Prelude.{◌≡◌, ◌↔◌, none, false}
use percona_link_mongodb.Server.Options.{ServerOptions, validate}
use percona_link_mongodb.Server.Options.Valid.{IsValid, validate_iff}

abbrev options : ServerOptions
options = record {
  port = pos 2242;
  source_uri = "mongodb://a";
  target_uri = "mongodb://b";
  start = false;
  pause = false;
}

validate_iff_example : (validate options ≡ none) ↔ IsValid options
validate_iff_example = validate_iff options
