-- ===== src/Ble/Link/Events/Restart.antt =====
-- A connection that ends during the advertising window.
use n_rf5340_presence_test.Base.{
  ℕ, ◌≡◌, refl, ◌∙◌, ap, Bool, true, false, if◌then◌else◌, List, [], ◌∷◌, none, some,
}
use n_rf5340_presence_test.Base.Int.{is_zero}
use n_rf5340_presence_test.Ble.Link.Zephyr.{Platform, IsPlatform, Work, Looks, enqueue}
use n_rf5340_presence_test.Ble.Link.{Link, adv_on, adv_off, connected, disconnected, work_fn}
use n_rf5340_presence_test.Ble.Link.Events.{Step, serve}

module _ (pf : Platform) where
  -- A central connects only to a node that advertises and has no connection, and only a connection
  -- that is there ends.
  abbrev pub IsLive : {s t : Link pf.P} → Step pf s t → Type 0
  IsLive (Step.connect s conn err) =
      (s.current_conn ≡ none) × (pf.advertising s.platform ≡ true) × (err ≡ 0)
  IsLive (Step.disconnect s) = (conn : ℕ) × (s.current_conn ≡ some conn)
  IsLive step = Unit {0}

  pub data ReachLive (s : Link pf.P) : Link pf.P → Type 0 where
    here : ReachLive s s
    next : {t u : Link pf.P} → ReachLive s t → (step : Step pf t u) → IsLive step → ReachLive s u

module _ (pf : Platform) (laws : IsPlatform pf) where
  -- The first work that waits, as what is seen after it.
  serve_on :
      (s : Link pf.P) (rest : List Work)
      → pf.queue s.platform ≡ Work.on ∷ rest
      → pf.advertising s.platform ≡ false
      → Looks pf
          (serve pf Work.on s).platform
          rest
          (pf.armed s.platform)
          (is_zero (pf.adv_start (pf.take_work s.platform)).0)
        × ((serve pf Work.on s).adv_window_open ≡ s.adv_window_open)
  unfolding work_fn adv_on
  serve_on s rest e hidden =
      let p = pf.take_work s.platform in
      let (queue, armed, shown) = laws.takes s.platform Work.on rest e in
      let (queue', armed', shown') = laws.starts p in
      (
        (
          queue' ∙ queue,
          armed' ∙ armed,
          shown' ∙ only_if (is_zero (pf.adv_start p).0) (shown ∙ hidden),
        ),
        refl,
      )
    where
      only_if : (b : Bool) {c : Bool} → c ≡ false → (if b then true else c) ≡ b
      only_if true e = refl
      only_if false e = e

  serve_off :
      (s : Link pf.P) (rest : List Work)
      → pf.queue s.platform ≡ Work.off ∷ rest
      → Looks pf (serve pf Work.off s).platform rest (pf.armed s.platform) false
        × ((serve pf Work.off s).adv_window_open ≡ false)
        × ((serve pf Work.off s).current_conn ≡ s.current_conn)
  unfolding work_fn adv_off
  serve_off s rest e =
      let (queue, armed, shown) = laws.takes s.platform Work.off rest e in
      let (queue', armed', hidden) = laws.stops (pf.take_work s.platform) in
      ((queue' ∙ queue, armed' ∙ armed, hidden), refl, refl)

  disconnected_lem :
      (s : Link pf.P)
      → s.adv_window_open ≡ true
      → Looks pf
          (disconnected pf s).platform
          (enqueue Work.on (pf.queue s.platform))
          (pf.armed s.platform)
          (pf.advertising s.platform)
        × ((disconnected pf s).current_conn ≡ none)
  unfolding disconnected
  disconnected_lem s shown = (rw shown (laws.submits Work.on s.platform), refl)

  -- A central that connects, with what the stack does by itself.
  abbrev meets : ℕ → Link pf.P → Link pf.P
  meets conn s = connected pf.P conn 0 (record s { platform = pf.accept s.platform })

  meets_lem :
      (conn : ℕ) (s : Link pf.P)
      → Looks pf (meets conn s).platform (pf.queue s.platform) (pf.armed s.platform) false
        × ((meets conn s).current_conn ≡ some conn)
        × ((meets conn s).adv_window_open ≡ s.adv_window_open)
  unfolding connected
  meets_lem conn s = (laws.accepts s.platform, refl, refl)

  -- The node advertises in its window, without a connection, and no work waits. Then there is an
  -- order of events, with a central that connects and leaves, after which the window is closed, the
  -- timer does not run, the node does not advertise, and all that waits is the work that starts the
  -- advertising; and when that is served, the node advertises just if the stack agrees to start,
  -- with the window closed and neither the timer nor any work left that would stop it. The
  -- connection ends between the end of the timer and the work that this has submitted.
  pub stays_visible :
      (s : Link pf.P) (conn : ℕ)
      → s.current_conn ≡ none
      → s.adv_window_open ≡ true
      → Looks pf s.platform [] true true
      → (t : Link pf.P) × ReachLive pf s t
        × (t.current_conn ≡ none)
        × (t.adv_window_open ≡ false)
        × Looks pf t.platform (Work.on ∷ []) false false
        × ReachLive pf s (serve pf Work.on t)
        × ((serve pf Work.on t).adv_window_open ≡ false)
        × Looks pf
            (serve pf Work.on t).platform
            []
            false
            (is_zero (pf.adv_start (pf.take_work t.platform)).0)
  stays_visible s conn alone open_now (none_waits, runs, shown) =
      let s1 = meets conn s in
      let s2 : Link pf.P = record s1 { platform = pf.expire s1.platform } in
      let s3 = disconnected pf s2 in
      let t = serve pf Work.off s3 in
      let ((queue1, armed1, _), met, still) = meets_lem conn s in
      let (queue2, armed2, _) = laws.expires s1.platform in
      let waits = queue2 ∙ ap (λ (ws : List Work). enqueue Work.off ws) (queue1 ∙ none_waits) in
      let ((queue3, armed3, _), gone) = disconnected_lem s2 (still ∙ open_now) in
      let waits' = queue3 ∙ ap (λ (ws : List Work). enqueue Work.on ws) waits in
      let ((queue4, armed4, hidden), closed, same) = serve_off s3 (Work.on ∷ []) waits' in
      let idle = armed4 ∙ armed3 ∙ armed2 in
      let ((queue5, armed5, visible), same') = serve_on t [] queue4 hidden in
      let reach =
        ReachLive.next
          (ReachLive.next
            (ReachLive.next
              (ReachLive.next ReachLive.here (Step.connect s conn 0) (alone, shown, refl))
              (Step.expire s1 (armed1 ∙ runs)) tt)
            (Step.disconnect s2) (conn, met))
          (Step.serve_work s3 Work.off (Work.on ∷ []) waits') tt in
      (
        t,
        reach,
        same ∙ gone,
        closed,
        (queue4, idle, hidden),
        ReachLive.next reach (Step.serve_work t Work.on [] queue4) tt,
        same' ∙ closed,
        (queue5, armed5 ∙ idle, visible),
      )
