-- ===== src/Ble/Link.antt =====
-- ble.c outside a dump: the control characteristic, the subscription, the connection, and the
-- advertising window.
pub mod Zephyr
pub mod Events
use n_rf5340_presence_test.Base.{
  ℕ, Bool, true, false, not, List, [], ◌∷◌, Option, none, some, ◌==◌, if◌then◌else◌, ◌>>=◌, length,
}
use n_rf5340_presence_test.Ble.Link.Zephyr.{Platform, Work}
use n_rf5340_presence_test.Frame.Command.{parse_cmd}

-- The statics of ble.c, with the connections that it holds references to. `dump_req` is the
-- semaphore, whose count is 0 or 1.
pub record Link (P : Type 0) : Type 0 where
  pub current_conn : Option ℕ
  pub refs : List ℕ
  pub notify_enabled : Bool
  pub dump_req : Bool
  pub dump_first_seq : ℕ
  pub adv_window_open : Bool
  pub platform : P

-- `bt_conn_unref`: one reference less.
abbrev pub unref : ℕ → List ℕ → List ℕ
unref conn [] = []
unref conn (c ∷ refs) = if c == conn then refs else c ∷ unref conn refs

-- `if (current_conn) bt_conn_unref(current_conn)`
abbrev pub released : Option ℕ → List ℕ → List ℕ
released none refs = refs
released (some conn) refs = unref conn refs

-- What `ctrl_write` returns: the length, or one of two ATT errors.
pub data Reply : Type 0 where
  written : ℕ → Reply
  invalid_offset : Reply
  value_not_allowed : Reply

-- `BT_GATT_CCC_NOTIFY`
abbrev pub ccc_notify : ℕ
ccc_notify = 0x0001

module _ (P : Type 0) where
  -- `buf` is the list of the `len` bytes written; `none` is a read past it.
  unfoldable pub ctrl_write : List ℕ → ℕ → Link P → Option (Reply × Link P)
  ctrl_write buf offset s = if not (offset == 0) then some (invalid_offset, s) else (do
    cmd ← parse_cmd buf
    some (elim cmd [
      | none ↦ (value_not_allowed, s)
      | some first_seq ↦
          (written (length buf), record s { dump_first_seq = first_seq; dump_req = true })
    ]))

  unfoldable pub ccc_changed : ℕ → Link P → Link P
  ccc_changed value s = record s { notify_enabled = value == ccc_notify }

  unfoldable pub connected : ℕ → ℕ → Link P → Link P
  connected conn err s =
      if not (err == 0) then s else record s { current_conn = some conn; refs = conn ∷ s.refs }

  -- A round of `dump_thread` that took the semaphore: the connection and the number that `dump_run`
  -- is called with, if it is.
  unfoldable pub dump_take : Link P → Option (ℕ × ℕ) × Link P
  dump_take s = (
    elim s.current_conn [
      | none ↦ none
      | some conn ↦ if s.notify_enabled then some (conn, s.dump_first_seq) else none
    ],
    record s { dump_req = false },
  )

module _ (pf : Platform) where
  -- `adv_start` and `adv_on_fn`: every answer of the stack leaves the statics alone.
  unfoldable pub adv_on : Link pf.P → Link pf.P
  adv_on s = record s { platform = (pf.adv_start s.platform).1 }

  unfoldable pub adv_off : Link pf.P → Link pf.P
  adv_off s = record s { adv_window_open = false; platform = pf.adv_stop s.platform }

  unfoldable pub advertise_window : Link pf.P → Link pf.P
  advertise_window s = record s {
    adv_window_open = true;
    platform = pf.reschedule (pf.submit Work.on s.platform);
  }

  unfoldable pub disconnected : Link pf.P → Link pf.P
  disconnected s = record s {
    notify_enabled = false;
    current_conn = none;
    refs = released s.current_conn s.refs;
    platform = if s.adv_window_open then pf.submit Work.on s.platform else s.platform;
  }

  -- What the queue's thread calls for an item.
  unfoldable pub work_fn : Work → Link pf.P → Link pf.P
  unfolding adv_on adv_off
  work_fn Work.on s = adv_on s
  work_fn Work.off s = adv_off s
