-- ===== src/Server/Tests.antt =====
-- Witnesses of the server.
use percona_link_mongodb.Bson.{Timestamp, pos}
use percona_link_mongodb.Prelude.{String, Bool, not, leb, none, some}
use percona_link_mongodb.Errors.{Error}
use percona_link_mongodb.Repl.{Repl}
use percona_link_mongodb.Pcsm.{new_pcsm}
use percona_link_mongodb.Server.{Request, Decoders, handle, start_endpoint, no_options}
use percona_link_mongodb.Server.Guards.{HandledAs, handle-HandledAs}

abbrev later : Timestamp → Timestamp → Bool
later a b = not (leb a.t b.t)

abbrev text : Error → String
text e = "driver"

abbrev decoders : Decoders
decoders = record {
  start_request = λ s. some no_options;
  finalize_request = λ s. none;
  resume_request = λ s. none;
}

abbrev ended : Repl → Repl
ended r = r

abbrev post : Request
post = record { method = "POST"; content_length = pos 2; body = some "{}" }

handle-HandledAs_example :
    HandledAs later text decoders ended start_endpoint post new_pcsm
      (handle later text decoders ended start_endpoint post new_pcsm)
handle-HandledAs_example = handle-HandledAs later text decoders ended start_endpoint post new_pcsm
