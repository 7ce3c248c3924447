-- ===== src/Ble/Link/Events.antt =====
-- Every order of events that the node sees, each handled as a whole.
pub mod Window
pub mod Restart
pub mod Requests
pub mod References
use n_rf5340_presence_test.Base.{ℕ, ◌≡◌, true, List, ◌∷◌, some}
use n_rf5340_presence_test.Ble.Link.Zephyr.{Platform, Work}
use n_rf5340_presence_test.Ble.Link.{
  Link, Reply, ctrl_write, ccc_changed, connected, dump_take, advertise_window, disconnected,
  work_fn,
}

module _ (pf : Platform) where
  -- The queue's thread takes the first item, and calls its function.
  abbrev pub serve : Work → Link pf.P → Link pf.P
  serve w s = work_fn pf w (record s { platform = pf.take_work s.platform })

  -- `expire` is the timer of `adv_off_work`. The stack stops to advertise when a central connects.
  pub data Step : Link pf.P → Link pf.P → Type 0 where
    press : (s : Link pf.P) → Step s (advertise_window pf s)
    write :
        (s : Link pf.P) (buf : List ℕ) (offset : ℕ) (out : Reply × Link pf.P)
        → ctrl_write pf.P buf offset s ≡ some out
        → Step s out.1
    subscribe : (s : Link pf.P) (value : ℕ) → Step s (ccc_changed pf.P value s)
    connect :
        (s : Link pf.P) (conn err : ℕ)
        → Step s (connected pf.P conn err (record s { platform = pf.accept s.platform }))
    disconnect : (s : Link pf.P) → Step s (disconnected pf s)
    dump : (s : Link pf.P) → s.dump_req ≡ true → Step s (dump_take pf.P s).1
    expire :
        (s : Link pf.P)
        → pf.armed s.platform ≡ true
        → Step s (record s { platform = pf.expire s.platform })
    serve_work :
        (s : Link pf.P) (w : Work) (rest : List Work)
        → pf.queue s.platform ≡ w ∷ rest
        → Step s (serve w s)

  pub data Reach (s : Link pf.P) : Link pf.P → Type 0 where
    here : Reach s s
    next : {t u : Link pf.P} → Reach s t → Step t u → Reach s u
