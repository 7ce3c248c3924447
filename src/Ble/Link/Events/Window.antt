-- ===== src/Ble/Link/Events/Window.antt =====
-- The advertising window closes again.
use n_rf5340_presence_test.Base.{
  ℕ, ◌≡◌, refl, ◌∙◌, ap, Bool, true, ◌||◌, List, [], ◌∷◌, ◌++◌, some, arith, if◌then◌else◌,
  Bool-cases, inl, inr,
}
use n_rf5340_presence_test.Ble.Link.Zephyr.{Platform, IsPlatform, Work, queued, same, enqueue}
use n_rf5340_presence_test.Ble.Link.{
  Link, Reply, ctrl_write, ccc_changed, connected, dump_take, adv_on, adv_off, advertise_window,
  disconnected, work_fn,
}
use n_rf5340_presence_test.Ble.Link.Events.{Step, Reach, serve}

same_refl : (w : Work) → same w w ≡ true
same_refl Work.on = refl
same_refl Work.off = refl

queued-snoc : (w : Work) (ws : List Work) → queued w (ws ++ w ∷ []) ≡ true
queued-snoc w [] = rw (same_refl w) refl
queued-snoc w (v ∷ vs) = rw (queued-snoc w vs) ground arith

queued-append : (w v : Work) (ws : List Work) → queued w ws ≡ true → queued w (ws ++ v ∷ []) ≡ true
queued-append w v [] h = absurd (ground arith)
queued-append w v (u ∷ ws) h = elim (Bool-cases (same w u)) [
  | inl e ↦ rw e refl
  | inr e ↦ rw e (queued-append w v ws (rw e at h))
]

queued-enqueue_self : (w : Work) (ws : List Work) → queued w (enqueue w ws) ≡ true
queued-enqueue_self w ws = ground (arith, queued-snoc w ws)

queued-enqueue : (w v : Work) (ws : List Work) → queued w ws ≡ true → queued w (enqueue v ws) ≡ true
queued-enqueue w v ws h = ground (arith, queued-append w v ws h)

-- The end of the window is on its way: its timer runs, or its work waits.
abbrev pub ending : List Work → Bool → Bool
ending queue armed = armed || queued Work.off queue

abbrev pub IsEnding : Bool → List Work → Bool → Type 0
IsEnding window queue armed = (if window then ending queue armed else true) ≡ true

ctrl_write_keeps :
    (P : Type 0) (buf : List ℕ) (offset : ℕ) (s : Link P) (out : Reply × Link P)
    → ctrl_write P buf offset s ≡ some out
    → (out.1.platform ≡ s.platform) × (out.1.adv_window_open ≡ s.adv_window_open)
unfolding ctrl_write
ctrl_write_keeps P buf offset s out e = ground (arith, e)

connected_keeps :
    (P : Type 0) (conn err : ℕ) (s : Link P)
    → ((connected P conn err s).platform ≡ s.platform)
      × ((connected P conn err s).adv_window_open ≡ s.adv_window_open)
unfolding connected
connected_keeps P conn err s = ground arith

module _ (pf : Platform) (laws : IsPlatform pf) where
  -- An open window has its end on its way.
  abbrev pub IsTimed : Link pf.P → Type 0
  IsTimed s = IsEnding s.adv_window_open (pf.queue s.platform) (pf.armed s.platform)

  -- Only the end of the window, and its opening, change the flag; a state that looks the same is as
  -- good.
  unchanged_view :
      (s t : Link pf.P)
      → IsTimed s
      → t.adv_window_open ≡ s.adv_window_open
      → pf.queue t.platform ≡ pf.queue s.platform
      → pf.armed t.platform ≡ pf.armed s.platform
      → IsTimed t
  unchanged_view s t h window queue armed = rw (window, queue, armed) h

  more_waiting :
      (s t : Link pf.P)
      → IsTimed s
      → t.adv_window_open ≡ s.adv_window_open
      → pf.queue t.platform ≡ enqueue Work.on (pf.queue s.platform)
      → pf.armed t.platform ≡ pf.armed s.platform
      → IsTimed t
  more_waiting s t h window queue armed =
      rw (window, queue, armed)
        (ground (arith, queued-enqueue Work.off Work.on (pf.queue s.platform)))

  disconnected-IsTimed : (s : Link pf.P) → IsTimed s → IsTimed (disconnected pf s)
  unfolding disconnected
  disconnected-IsTimed s h =
      let (queue, armed, _) = laws.submits Work.on s.platform in
      elim (Bool-cases s.adv_window_open) [
        | inl shown ↦
            rw (shown, queue, armed)
              (ground (arith, queued-enqueue Work.off Work.on (pf.queue s.platform)))
        | inr closed ↦ rw closed refl
      ]

  expire-IsTimed : (s : Link pf.P) → IsTimed (record s { platform = pf.expire s.platform })
  expire-IsTimed s =
      let (queue, armed, _) = laws.expires s.platform in
      rw (queue, armed) (ground (arith, queued-enqueue_self Work.off (pf.queue s.platform)))

  adv_on-IsTimed :
      (s : Link pf.P) (rest : List Work)
      → pf.queue s.platform ≡ Work.on ∷ rest
      → IsTimed s
      → IsTimed (serve pf Work.on s)
  unfolding work_fn adv_on
  adv_on-IsTimed s rest e h =
      let (queue, armed, _) = laws.takes s.platform Work.on rest e in
      let (queue', armed', _) = laws.starts (pf.take_work s.platform) in
      rw (queue' ∙ queue, armed' ∙ armed) (rw e at h)

  Step-IsTimed : {s t : Link pf.P} → Step pf s t → IsTimed s → IsTimed t
  unfolding advertise_window ccc_changed dump_take work_fn adv_off
  Step-IsTimed (Step.press s) h =
      let (queue, armed, _) = laws.reschedules (pf.submit Work.on s.platform) in rw armed refl
  Step-IsTimed (Step.write s buf offset out e) h =
      let (platform, window) = ctrl_write_keeps pf.P buf offset s out e in
      unchanged_view s out.1 h window (ap pf.queue platform) (ap pf.armed platform)
  Step-IsTimed (Step.subscribe s value) h = h
  Step-IsTimed (Step.connect s conn err) h =
      let s' : Link pf.P = record s { platform = pf.accept s.platform } in
      let (platform, window) = connected_keeps pf.P conn err s' in
      let (queue, armed, _) = laws.accepts s.platform in
      unchanged_view s (connected pf.P conn err s') h window (ap pf.queue platform ∙ queue)
        (ap pf.armed platform ∙ armed)
  Step-IsTimed (Step.disconnect s) h = disconnected-IsTimed s h
  Step-IsTimed (Step.dump s e) h = h
  Step-IsTimed (Step.expire s e) h = expire-IsTimed s
  Step-IsTimed (Step.serve_work s Work.on rest e) h = adv_on-IsTimed s rest e h
  Step-IsTimed (Step.serve_work s Work.off rest e) h = refl

  -- Whatever order the events come in, an open advertising window has its end on its way: the timer
  -- of `adv_off_work` runs, or that work waits in the queue.
  pub Reach-IsTimed : {s t : Link pf.P} → Reach pf s t → IsTimed s → IsTimed t
  Reach-IsTimed Reach.here h = h
  Reach-IsTimed (Reach.next r step) h = Step-IsTimed step (Reach-IsTimed r h)
