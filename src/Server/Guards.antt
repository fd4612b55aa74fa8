-- ===== src/Server/Guards.antt =====
-- What a request to the server of main.go does to the program.
use percona_link_mongodb.Bson.{ℤ, pos, negsuc, Timestamp}
use percona_link_mongodb.Prelude.{
  ℕ, ◌≤◌, ◌≡◌, ◌≢◌, refl, ◌⊎◌, inl, inr, String, Bool, true, false, Option, none, some, ◌==◌,
  string_eq, ==_iff, Bool-cases, Option-cases, arith,
}
use percona_link_mongodb.Errors.{Error}
use percona_link_mongodb.Repl.{Repl}
use percona_link_mongodb.Pcsm.{Pcsm, StartOptions}
use percona_link_mongodb.Pcsm.Moves.{
  Command, start_command, pause_command, resume_command, finalize_command, admits, moves_to, IsMute,
  MovedAs, run_command-MovedAs,
}
use percona_link_mongodb.Server.{
  Request, Response, Answer, answered, refused, Decoders, Endpoint, start_endpoint, pause_endpoint,
  resume_endpoint, finalize_endpoint, guard, is_too_large, has_content, params, read_body,
  no_options, is_history_lost, command_of, respond, obey, passed, handle,
}

-- The length that a request declares is at most 1 MiB, or not known.
abbrev pub IsSmall : ℤ → Type 0
IsSmall (pos n) = n ≤ 1048576
IsSmall (negsuc n) = Unit {0}

-- What the guards let through, and what they answer otherwise.
abbrev pub PassedAs : Request → Option ℕ → Type 0
PassedAs req none = (req.method ≡ "POST") × IsSmall req.content_length
PassedAs req (some code) =
    ((code ≡ 405) × (req.method ≢ "POST"))
    ⊎ ((code ≡ 413) × (req.method ≡ "POST") × ¬ IsSmall req.content_length)

is_too_large-false : (n : ℤ) → is_too_large n ≡ false → IsSmall n
unfolding is_too_large
is_too_large-false (pos n) h = ground arith
is_too_large-false (negsuc n) h = tt

is_too_large-true : (n : ℤ) → is_too_large n ≡ true → ¬ IsSmall n
unfolding is_too_large
is_too_large-true (pos n) h small = ground arith
is_too_large-true (negsuc n) h small = ground arith

guard-PassedAs : (req : Request) → PassedAs req (guard "POST" req)
unfolding guard
guard-PassedAs req = elim (Bool-cases (req.method == "POST")) [
  | inr other ↦ rw other (inl (refl, λ h. ground (arith, (==_iff req.method "POST").1 h)))
  | inl post ↦ elim (Bool-cases (is_too_large req.content_length)) [
    | inl large ↦
        rw (post, large)
          (inr
            (refl, (==_iff req.method "POST").0 post, is_too_large-true req.content_length large))
    | inr small ↦
        rw (post, small)
          ((==_iff req.method "POST").0 post, is_too_large-false req.content_length small)
  ]
]

module _ {A : Type 0} (unmarshal : String → Option A) (default : A) where
  -- The parameters that a request gives: the default ones without content, and else what its body
  -- is decoded to.
  abbrev pub Gives : Request → A → Type 0
  Gives req a =
      ((req.content_length ≡ pos 0) × (a ≡ default))
      ⊎ ((req.content_length ≢ pos 0)
          × ((body : String) × (req.body ≡ some body) × (unmarshal body ≡ some a)))

  -- A body that cannot be read, and one that cannot be decoded.
  abbrev pub Spoiled : Request → ℕ → Type 0
  Spoiled req code =
      (req.content_length ≢ pos 0)
      × (((code ≡ 500) × (req.body ≡ none))
          ⊎ ((code ≡ 400) × ((body : String) × (req.body ≡ some body) × (unmarshal body ≡ none))))

  abbrev GivenAs : Request → Answer A → Type 0
  GivenAs req (answered a) = Gives req a
  GivenAs req (refused code) = Spoiled req code

  has_content-false : (n : ℤ) → has_content n ≡ false → n ≡ pos 0
  unfolding has_content
  has_content-false (pos n) h = ground arith
  has_content-false (negsuc n) h = ground arith

  has_content-true : (n : ℤ) → has_content n ≡ true → n ≢ pos 0
  unfolding has_content
  has_content-true (pos n) h e = ground arith
  has_content-true (negsuc n) h e = ground arith

  params-GivenAs : (req : Request) → GivenAs req (params unmarshal default req)
  unfolding params read_body
  params-GivenAs req = elim (Bool-cases (has_content req.content_length)) [
    | inr empty ↦ rw empty (inl (has_content-false req.content_length empty, refl))
    | inl content ↦
        let sized = has_content-true req.content_length content in
        elim (Option-cases req.body) [
          | inl e ↦ rw (content, e) (sized, inl (refl, refl))
          | inr (body, e) ↦ elim (Option-cases (unmarshal body)) [
            | inl f ↦ rw (content, e) (rw (f, read_body) (sized, inr (refl, (body, refl, f))))
            | inr (a, f) ↦ rw (content, e) (rw (f, read_body) (inr (sized, (body, refl, f))))
          ]
        ]
  ]

module _ (after : Timestamp → Timestamp → Bool) (text : Error → String) (decoders : Decoders)
    (ended : Repl → Repl) where
  -- The command of an endpoint, with the parameters that the request gives.
  abbrev pub Asks : Endpoint → Request → Pcsm → Command → Type 0
  Asks start_endpoint req ml cmd =
      (options : StartOptions) × (cmd ≡ start_command options)
      × Gives decoders.start_request no_options req options
  Asks pause_endpoint req ml cmd = cmd ≡ pause_command
  Asks resume_endpoint req ml cmd =
      (from_failure : Bool) × (cmd ≡ resume_command from_failure)
      × Gives decoders.resume_request false req from_failure
  Asks finalize_endpoint req ml cmd =
      (ignore : Bool) × (cmd ≡ finalize_command ignore (is_history_lost ml) ended)
      × Gives decoders.finalize_request false req ignore

  -- A request whose parameters cannot be had; pause has none.
  abbrev pub Unreadable : Endpoint → Request → ℕ → Type 0
  Unreadable start_endpoint req code = Spoiled decoders.start_request no_options req code
  Unreadable pause_endpoint req code = ⊥
  Unreadable resume_endpoint req code = Spoiled decoders.resume_request false req code
  Unreadable finalize_endpoint req code = Spoiled decoders.finalize_request false req code

  -- The answer `ok` to a command: it was admitted, and the state has moved; or the program has failed
  -- and shows no error, and is as before. The answer of an error: state and error are as before.
  abbrev pub ObeyedAs : Command → Pcsm → Bool → Pcsm → Type 0
  ObeyedAs cmd ml true ml' =
      ((admits cmd ml.state ≡ true) × (ml'.state ≡ moves_to cmd)) ⊎ (IsMute ml × (ml' ≡ ml))
  ObeyedAs cmd ml false ml' = (ml'.state ≡ ml.state) × (ml'.err ≡ ml.err)

  abbrev pub HandledAs : Endpoint → Request → Pcsm → Answer Response × Pcsm → Type 0
  HandledAs endpoint req ml (refused code, ml') =
      (ml' ≡ ml) × (PassedAs req (some code) ⊎ (PassedAs req none × Unreadable endpoint req code))
  HandledAs endpoint req ml (answered r, ml') =
      PassedAs req none × ((cmd : Command) × Asks endpoint req ml cmd × ObeyedAs cmd ml r.ok ml')

  abbrev AskedAs : Endpoint → Request → Pcsm → Answer Command → Type 0
  AskedAs endpoint req ml (answered cmd) = Asks endpoint req ml cmd
  AskedAs endpoint req ml (refused code) = Unreadable endpoint req code

  start-AskedAs :
      (req : Request) (ml : Pcsm) (a : Answer StartOptions)
      → GivenAs decoders.start_request no_options req a
      → AskedAs start_endpoint req ml (elim a [
        | refused code ↦ refused code
        | answered options ↦ answered (start_command options)
      ])
  start-AskedAs req ml (answered options) h = (options, refl, h)
  start-AskedAs req ml (refused code) h = h

  resume-AskedAs :
      (req : Request) (ml : Pcsm) (a : Answer Bool)
      → GivenAs decoders.resume_request false req a
      → AskedAs resume_endpoint req ml
          (elim a [ refused code ↦ refused code | answered b ↦ answered (resume_command b) ])
  resume-AskedAs req ml (answered b) h = (b, refl, h)
  resume-AskedAs req ml (refused code) h = h

  finalize-AskedAs :
      (req : Request) (ml : Pcsm) (a : Answer Bool)
      → GivenAs decoders.finalize_request false req a
      → AskedAs finalize_endpoint req ml (elim a [
        | refused code ↦ refused code
        | answered b ↦ answered (finalize_command b (is_history_lost ml) ended)
      ])
  finalize-AskedAs req ml (answered b) h = (b, refl, h)
  finalize-AskedAs req ml (refused code) h = h

  command_of-AskedAs :
      (endpoint : Endpoint) (req : Request) (ml : Pcsm)
      → AskedAs endpoint req ml (command_of after text decoders ended endpoint req ml)
  unfolding command_of
  command_of-AskedAs start_endpoint req ml =
      start-AskedAs req ml (params decoders.start_request no_options req)
        (params-GivenAs decoders.start_request no_options req)
  command_of-AskedAs pause_endpoint req ml = refl
  command_of-AskedAs resume_endpoint req ml =
      resume-AskedAs req ml (params decoders.resume_request false req)
        (params-GivenAs decoders.resume_request false req)
  command_of-AskedAs finalize_endpoint req ml =
      finalize-AskedAs req ml (params decoders.finalize_request false req)
        (params-GivenAs decoders.finalize_request false req)

  respond-HandledAs :
      (endpoint : Endpoint) (req : Request) (ml : Pcsm) (cmd : Command) (r : Option Error × Pcsm)
      → PassedAs req none
      → Asks endpoint req ml cmd
      → MovedAs after cmd ml r
      → HandledAs endpoint req ml (respond after text decoders ended r)
  unfolding respond
  respond-HandledAs endpoint req ml cmd (none, ml') g c m = (g, (cmd, c, m))
  respond-HandledAs endpoint req ml cmd (some e, ml') g c m = (g, (cmd, c, m))

  obey-HandledAs :
      (endpoint : Endpoint) (req : Request) (ml : Pcsm) (a : Answer Command)
      → PassedAs req none
      → AskedAs endpoint req ml a
      → HandledAs endpoint req ml (obey after text decoders ended a ml)
  unfolding obey
  obey-HandledAs endpoint req ml (refused code) g c = (refl, inr (g, c))
  obey-HandledAs endpoint req ml (answered cmd) g c =
      respond-HandledAs endpoint req ml cmd _ g c (run_command-MovedAs after cmd ml)

  passed-HandledAs :
      (endpoint : Endpoint) (req : Request) (ml : Pcsm) (g : Option ℕ)
      → PassedAs req g
      → let a = command_of after text decoders ended endpoint req ml in
        HandledAs endpoint req ml
          (passed after text decoders ended g (obey after text decoders ended a ml) ml)
  unfolding passed
  passed-HandledAs endpoint req ml (some code) h = (refl, inl h)
  passed-HandledAs endpoint req ml none h =
      obey-HandledAs endpoint req ml (command_of after text decoders ended endpoint req ml) h
        (command_of-AskedAs endpoint req ml)

  -- For every endpoint, request and program. A request that is refused leaves the program as it is,
  -- and is refused with 405 if its method is not POST, with 413 if the length that it declares is
  -- above 1 MiB, with 500 if it declares content and its body cannot be read, and with 400 if the body
  -- is not decoded; the last two not for pause, which reads no body. A request that is answered is a
  -- POST that declares no such length, and its command is that of the endpoint, with the parameters
  -- that the body is decoded to, or the default ones if no content is declared; the answer ok then
  -- says that the command was admitted in the program's state and has moved it (or that the program
  -- has failed without an error and is unchanged), and the other answer leaves state and error as
  -- before.
  pub handle-HandledAs :
      (endpoint : Endpoint) (req : Request) (ml : Pcsm)
      → HandledAs endpoint req ml (handle after text decoders ended endpoint req ml)
  unfolding handle
  handle-HandledAs endpoint req ml =
      passed-HandledAs endpoint req ml (guard "POST" req) (guard-PassedAs req)
