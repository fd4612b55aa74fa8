-- ===== src/Server/Setup.antt =====
-- The start and the end of the server in main.go: createServer, runServer up to its HTTP server,
-- Close, and resetState. Connecting, asking for a version and disconnecting are calls of the driver,
-- which are the fields of `Clusters`; the callback of the state changes is DoCheckpoint.
use percona_link_mongodb.Prelude.{◌∷◌, ℕ, String, ◌&&◌, Option, none, some, List, [], if◌then◌else◌}
use percona_link_mongodb.Errors.{Error}
use percona_link_mongodb.Exec.{
  Exec, Result, ok, fail, NoValue, result_of, pure, on_fail, context, ◌>>=◌, ◌>>◌,
}
use percona_link_mongodb.Heartbeat.{Beats, begin_heartbeat, delete_heartbeat}
use percona_link_mongodb.Recovery.{Documents, restore, do_checkpoint, delete_recovery_data}
use percona_link_mongodb.Recovery.Saved.{pcsm_recoverable}
use percona_link_mongodb.Pcsm.{Pcsm, new_pcsm, is_idle, start}
use percona_link_mongodb.Pcsm.Checkpoints.{Codec}
use percona_link_mongodb.Server.Options.{ServerOptions, validate}

pub record Clusters (W D : Type 0) : Type 0 where
  pub connect_source : String → Exec W NoValue
  pub connect_target : String → Exec W NoValue
  pub source_version : Exec W String
  pub target_version : Exec W String
  pub disconnect_source : W → Option Error × W
  pub disconnect_target : W → Option Error × W
  pub beats : Beats W
  pub docs : Documents W D
  pub codec : Codec D

-- The parts of a server that change: the program, and the last beat of its heartbeat.
pub record Server : Type 0 where
  pub pcsm : Pcsm
  pub last_beat : ℕ

module _ {W A : Type 0} where
  closing : (W → Option Error × W) → Result A × W → Result A × W
  closing disconnect (ok a, w) = (ok a, w)
  closing disconnect (fail e, w) = let (_, w') = disconnect w in (fail e, w')

  -- A deferred call for the case that the rest fails; its own error is logged.
  unfoldable pub or_close : (W → Option Error × W) → Exec W A → Exec W A
  unfolding closing
  or_close disconnect m w = closing disconnect (m w)

-- `text` and `now` are the text of foreign errors and the time, as a checkpoint needs them; `ended`
-- and `ticks` say how long a first heartbeat may wait.
module _ {W D : Type 0} (clusters : Clusters W D) (text : Error → String) (now : ℕ) (ended : Error)
    (ticks : ℕ) where
  unfoldable pub restore_pcsm : Exec W Pcsm
  restore_pcsm w =
      let (err, ml, w') =
        restore clusters.docs (pcsm_recoverable clusters.codec text now) new_pcsm w in
      elim err [ none ↦ (ok ml, w') | some e ↦ (fail e, w') ]

  unfoldable pub serve_target : Exec W Server
  unfolding ◌>>=◌ on_fail pure restore_pcsm
  serve_target = do
    context "target version" clusters.target_version
    beat ← context "heartbeat" (begin_heartbeat clusters.beats ended ticks)
    ml ← context "recover PCSM" restore_pcsm
    pure (record { pcsm = ml; last_beat = beat })

  unfoldable pub serve_source : String → Exec W Server
  unfolding ◌>>=◌ on_fail or_close serve_target
  serve_source target_uri = do
    context "source version" clusters.source_version
    context "connect to target cluster" (clusters.connect_target target_uri)
    or_close clusters.disconnect_target serve_target

  unfoldable pub create_server : String → String → Exec W Server
  unfolding ◌>>=◌ on_fail or_close serve_source
  create_server source_uri target_uri = do
    context "connect to source cluster" (clusters.connect_source source_uri)
    or_close clusters.disconnect_source (serve_source target_uri)

  -- The start that the option --start asks for; its error is logged.
  unfoldable pub start_if_asked : ServerOptions → Server → Server
  unfolding is_idle
  start_if_asked options s =
      if options.start && is_idle s.pcsm.state
      then (let (_, ml) =
            start
              (record {
                pause_on_initial_sync = options.pause;
                include_namespaces = [];
                exclude_namespaces = [];
              })
              s.pcsm in
          record s { pcsm = ml })
      else s

  -- runServer, up to its HTTP server.
  unfoldable pub run_server : ServerOptions → Exec W Server
  unfolding ◌>>=◌ on_fail pure create_server start_if_asked
  run_server options = do
    context "validate options" (λ w. (result_of (validate options), w))
    s ← context "new server" (create_server options.source_uri options.target_uri)
    pure (start_if_asked options s)

  -- SetOnStateChanged: the errors of the checkpoint are logged.
  unfoldable pub on_state_changed : Server → W → W
  unfolding do_checkpoint
  on_state_changed s w =
      let (_, w') =
        do_checkpoint clusters.docs (pcsm_recoverable clusters.codec text now) s.pcsm w in
      w'

  -- Close, with the errors that it joins.
  unfoldable pub close : W → List (Option Error) × W
  unfolding delete_heartbeat
  close w =
      let (r, w1) = delete_heartbeat clusters.beats w in
      let (err1, w2) = clusters.disconnect_source w1 in
      let (err2, w3) = clusters.disconnect_target w2 in
      ((elim r [ ok v ↦ none | fail e ↦ some e ]) ∷ err1 ∷ err2 ∷ [], w3)

  -- The error of the recovery data is wrapped as that of the heartbeat, as the source does.
  unfoldable pub delete_state : Exec W NoValue
  unfolding ◌>>=◌ on_fail delete_heartbeat delete_recovery_data
  delete_state = do
    context "delete heartbeat" (delete_heartbeat clusters.beats)
    context "delete heartbeat" λ w.
        let (err, w') =
          delete_recovery_data clusters.docs (pcsm_recoverable clusters.codec text now) w in
        (result_of err, w')

  unfoldable pub reset_state : String → Exec W NoValue
  unfolding ◌>>=◌ on_fail delete_state
  reset_state target_uri = do
    context "connect" (clusters.connect_target target_uri)
    λ w. let (r, w') = delete_state w in let (_, w'') = clusters.disconnect_target w' in (r, w'')
