-- ===== src/Ble/Link/Events/References.antt =====
-- The reference that ble.c holds to its connection.
use n_rf5340_presence_test.Base.{
  ℕ, ◌≡◌, ◌⊎◌, ap, false, List, [], ◌∷◌, Option, none, some, arith, ◌==◌, Bool-cases, inl, inr,
}
use n_rf5340_presence_test.Ble.Link.Zephyr.{Platform, Work}
use n_rf5340_presence_test.Ble.Link.{
  Link, Reply, ctrl_write, ccc_changed, connected, dump_take, advertise_window, disconnected,
  work_fn, adv_on, adv_off, released,
}
use n_rf5340_presence_test.Ble.Link.Events.{Step}

-- One reference, to the connection that is current.
abbrev pub IsBalanced : Option ℕ → List ℕ → Type 0
IsBalanced none refs = refs ≡ []
IsBalanced (some conn) refs = refs ≡ conn ∷ []

released-IsBalanced :
    (current : Option ℕ) (refs : List ℕ) → IsBalanced current refs → released current refs ≡ []
released-IsBalanced none refs h = h
released-IsBalanced (some conn) refs h = rw h (ground arith)

none_held :
    (current : Option ℕ) (refs : List ℕ) → current ≡ none → IsBalanced current refs → refs ≡ []
none_held none refs e h = h
none_held (some conn) refs e h = cc

module _ (pf : Platform) where
  -- There is one connection at most: the stack is configured for no more.
  abbrev pub IsSingle : {s t : Link pf.P} → Step pf s t → Type 0
  IsSingle (Step.connect s conn err) = (s.current_conn ≡ none) ⊎ ((err == 0) ≡ false)
  IsSingle step = Unit {0}

  pub data ReachSingle (s : Link pf.P) : Link pf.P → Type 0 where
    here : ReachSingle s s
    next :
        {t u : Link pf.P} → ReachSingle s t → (step : Step pf t u) → IsSingle step → ReachSingle s u

  ctrl_write_refs :
      (buf : List ℕ) (offset : ℕ) (s : Link pf.P) (out : Reply × Link pf.P)
      → ctrl_write pf.P buf offset s ≡ some out
      → (out.1.current_conn ≡ s.current_conn) × (out.1.refs ≡ s.refs)
  unfolding ctrl_write
  ctrl_write_refs buf offset s out e = ground (arith, e)

  connected-IsBalanced :
      (conn err : ℕ) (s : Link pf.P)
      → (s.current_conn ≡ none) ⊎ ((err == 0) ≡ false)
      → IsBalanced s.current_conn s.refs
      → IsBalanced (connected pf.P conn err s).current_conn (connected pf.P conn err s).refs
  unfolding connected
  connected-IsBalanced conn err s single h = elim (Bool-cases (err == 0)) [
    | inr failed ↦ rw failed h
    | inl done ↦ elim single [
      | inr failed ↦ absurd (cc (done, failed))
      | inl free ↦
          rw done (ap (λ (refs : List ℕ). conn ∷ refs) (none_held s.current_conn s.refs free h))
    ]
  ]

  disconnected-IsBalanced :
      (s : Link pf.P)
      → IsBalanced s.current_conn s.refs
      → IsBalanced (disconnected pf s).current_conn (disconnected pf s).refs
  unfolding disconnected
  disconnected-IsBalanced s h = released-IsBalanced s.current_conn s.refs h

  Step-IsBalanced :
      {s t : Link pf.P} (step : Step pf s t)
      → IsSingle step
      → IsBalanced s.current_conn s.refs
      → IsBalanced t.current_conn t.refs
  unfolding advertise_window ccc_changed dump_take work_fn adv_off adv_on
  Step-IsBalanced (Step.press s) one h = h
  Step-IsBalanced (Step.write s buf offset out e) one h =
      let (conn, refs) = ctrl_write_refs buf offset s out e in rw (conn, refs) h
  Step-IsBalanced (Step.subscribe s value) one h = h
  Step-IsBalanced (Step.connect s conn err) one h =
      connected-IsBalanced conn err (record s { platform = pf.accept s.platform }) one h
  Step-IsBalanced (Step.disconnect s) one h = disconnected-IsBalanced s h
  Step-IsBalanced (Step.dump s e) one h = h
  Step-IsBalanced (Step.expire s e) one h = h
  Step-IsBalanced (Step.serve_work s Work.on rest e) one h = h
  Step-IsBalanced (Step.serve_work s Work.off rest e) one h = h

  -- In whatever order the events come, with one connection at a time, failed connections and
  -- disconnections without a connection included: ble.c holds one reference to the current
  -- connection and no other, so none is leaked and none is given back twice.
  pub ReachSingle-IsBalanced :
      {s t : Link pf.P}
      → ReachSingle s t
      → IsBalanced s.current_conn s.refs
      → IsBalanced t.current_conn t.refs
  ReachSingle-IsBalanced ReachSingle.here h = h
  ReachSingle-IsBalanced (ReachSingle.next r step one) h =
      Step-IsBalanced step one (ReachSingle-IsBalanced r h)
