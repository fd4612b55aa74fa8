-- ===== src/Heartbeat/Takeover.antt =====
-- Who may run, by the heartbeat document (heartbeat.go).
use percona_link_mongodb.Prelude.{
  ℕ, ◌+◌, ◌*◌, ◌≤◌, ◌<◌, false, not, Option, none, some, ◌≡◌, ◌≢◌, refl, arith, if-cases, ◌∙◌,
}
use percona_link_mongodb.Errors.{Error, wrap}
use percona_link_mongodb.Exec.{Result, ok, fail, NoValue}
use percona_link_mongodb.Heartbeat.{
  Beats, is_live, unix, second, stale_heartbeat_duration, is_duplicate_key, judged, do_heartbeat,
  take_over, inserted, do_first_heartbeat, err_concurrent_process, err_stale_heartbeat,
}

module _ {W : Type 0} (beats : Beats W) (view : W → Option ℕ) where
  -- What the program relies on in the database: `view` is the document's beat. An insertion without
  -- an error finds no document; FindOneAndUpdate gives the beat that it replaces.
  pub record IsStore : Type 0 where
    pub insert_if_none :
        (beat : ℕ) (w : W) (v : NoValue) → (beats.insert beat w).0 ≡ ok v → view w ≡ none
    pub insert_some :
        (beat : ℕ) (w : W) (v : NoValue)
        → (beats.insert beat w).0 ≡ ok v
        → view (beats.insert beat w).1 ≡ some beat
    pub swap_from :
        (beat saved : ℕ) (w : W) → view w ≡ some saved → (beats.swap beat w).0 ≡ ok saved
    pub swap_to :
        (beat saved : ℕ) (w : W)
        → (beats.swap beat w).0 ≡ ok saved
        → view (beats.swap beat w).1 ≡ some beat
    pub later : (beat : ℕ) (w : W) → beats.now w ≤ beats.now (beats.swap beat w).1

  module _ (store : IsStore) where
    -- A heartbeat that was stale before is not taken without an error.
    judged-stale :
        (last curr : ℕ) (r : Result ℕ) (w w' : W)
        → is_live (beats.now w) last ≡ false
        → beats.now w ≤ beats.now w'
        → judged beats last curr r w' ≢ none
    unfolding judged is_live
    judged-stale last curr (fail e) w w' stale order p = ground arith
    judged-stale last curr (ok saved) w w' stale order p = ground arith

    wrap-some : (e : Option Error) → e ≢ none → wrap e "beat" ≢ none
    unfolding wrap
    wrap-some none h p = h p
    wrap-some (some e) h p = ground arith

    take_over-some : (r : Result ℕ) (w : W) → (take_over beats r w).1 ≢ none
    unfolding take_over do_heartbeat
    take_over-some (fail e) w = λ p. ground arith
    take_over-some (ok last) w =
        if-cases (λ (x : ℕ × Option Error × W). x.1 ≢ none) (is_live (beats.now w) last)
          (λ live p. ground arith)
          λ stale.
            wrap-some _
              (judged-stale last curr (beats.swap curr w).0 w _ stale (store.later curr w))
      where
        curr : ℕ
        curr = unix (beats.now w)

    refused-some : (curr : ℕ) (e : Error) (w : W) → (inserted beats curr (fail e) w).1 ≢ none
    unfolding inserted
    refused-some curr e w =
        if-cases (λ (x : ℕ × Option Error × W). x.1 ≢ none) (not (is_duplicate_key e))
          (λ other p. ground arith) λ d. take_over-some (beats.find w).0 (beats.find w).1

    inserted-none :
        (curr : ℕ) (r : Result NoValue) (w : W)
        → (inserted beats curr r w).1 ≡ none
        → ((v : NoValue) × (r ≡ ok v))
          × ((inserted beats curr r w).0 ≡ curr)
          × ((inserted beats curr r w).2 ≡ w)
    unfolding inserted
    inserted-none curr (ok v) w h = ((v, refl), refl, refl)
    inserted-none curr (fail e) w h = absurd (refused-some curr e w h)

    -- doFirstHeartbeat returns no error only where there was no document, and then the document has
    -- the beat that it returns: a heartbeat that is there is never taken over without an error, not
    -- even a stale one.
    pub do_first_heartbeat-none :
        (w : W)
        → (do_first_heartbeat beats w).1 ≡ none
        → (view w ≡ none)
          × (view (do_first_heartbeat beats w).2 ≡ some (do_first_heartbeat beats w).0)
    unfolding do_first_heartbeat
    do_first_heartbeat-none w h =
        let curr = unix (beats.now w) in
        let ((v, e), b, s) = inserted-none curr (beats.insert curr w).0 (beats.insert curr w).1 h in
        (store.insert_if_none curr w v e, rw (s, b) (store.insert_some curr w v e))

    -- Of two programs that found the same stale heartbeat, the one that writes first gets the error
    -- for a stale heartbeat, with which it goes on, and the other one the error for a concurrent
    -- process, if it writes before the first one's beat is stale.
    pub do_heartbeat-one_takes_over :
        (last : ℕ) (w w2 : W)
        → view w ≡ some last
        → last + stale_heartbeat_duration ≤ unix (beats.now w)
        → let (curr, err, w1) = do_heartbeat beats last w in
          view w2 ≡ view w1
          → beats.now (beats.swap (unix (beats.now w2)) w2).1
            < (unix (beats.now w) + stale_heartbeat_duration) * second
          → (err ≡ some err_stale_heartbeat)
            × ((do_heartbeat beats last w2).1 ≡ some err_concurrent_process)
    unfolding do_heartbeat judged is_live unix
    do_heartbeat-one_takes_over last w w2 found stale same soon =
        let curr = unix (beats.now w) in
        let curr2 = unix (beats.now w2) in
        let first = store.swap_from curr last w found in
        let other = store.swap_from curr2 curr w2 (same ∙ store.swap_to curr last w first) in
        (
          rw first (ground (arith, stale, store.later curr w)),
          rw other (ground (arith, stale, soon)),
        )
