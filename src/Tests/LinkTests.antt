-- ===== src/Tests/LinkTests.antt =====
-- The Bluetooth link at concrete inputs, on a work queue and an advertiser that are records.
use n_rf5340_presence_test.Base.{
  ℕ, ◌≡◌, refl, ap, ltb, Bool, true, false, List, [], ◌∷◌, some, none, length, arith, take, drop,
  inl,
}
use n_rf5340_presence_test.Base.Int.{ℤ}
use n_rf5340_presence_test.Frame.Record.{device_id_len}
use n_rf5340_presence_test.Ble.DeviceId.{prefix, device_id_init}
use n_rf5340_presence_test.Ble.DeviceId.Decode.{IsPrintable, read_hex, serial, device_id_init_lem}
use n_rf5340_presence_test.Ble.Notify.Delivery
use n_rf5340_presence_test.Ble.Notify.Delivery.{Attempt}
use n_rf5340_presence_test.Ble.Link.Zephyr.{Platform, IsPlatform, Work, Looks, enqueue}
use n_rf5340_presence_test.Ble.Link.{Link, advertise_window, connected, disconnected}
use n_rf5340_presence_test.Ble.Link.Events.References.{
  ReachSingle, IsBalanced, ReachSingle-IsBalanced,
}
use n_rf5340_presence_test.Ble.Link.Events.{Step, Reach, serve}
use n_rf5340_presence_test.Ble.Link.Events.Window.{IsTimed, Reach-IsTimed}
use n_rf5340_presence_test.Ble.Link.Events.Restart.{ReachLive, stays_visible}

-- The work that waits, whether the timer runs, and whether the node advertises.
pub record Sys : Type 0 where
  work : List Work
  timer : Bool
  shown : Bool

abbrev rest_of : List Work → List Work
rest_of [] = []
rest_of (w ∷ ws) = ws

abbrev sys : Platform
sys = record {
  P = Sys;
  submit = λ w p. record p { work = enqueue w p.work };
  reschedule = λ p. record p { timer = true };
  adv_start = λ p. (ℤ.pos 0, record p { shown = true });
  adv_stop = λ p. record p { shown = false };
  expire = λ p. record p { work = enqueue Work.off p.work; timer = false };
  take_work = λ p. record p { work = rest_of p.work };
  accept = λ p. record p { shown = false };
  queue = λ p. p.work;
  armed = λ p. p.timer;
  advertising = λ p. p.shown;
}

sys-IsPlatform : IsPlatform sys
sys-IsPlatform = record {
  submits = λ w p. (refl, refl, refl);
  reschedules = λ p. (refl, refl, refl);
  starts = λ p. (refl, refl, refl);
  stops = λ p. (refl, refl, refl);
  expires = λ p. (refl, refl, refl);
  takes = λ p w rest e. (ap rest_of e, refl, refl);
  accepts = λ p. (refl, refl, refl);
}

abbrev pub off_air : Link Sys
off_air = record {
  current_conn = some 1;
  refs = 1 ∷ [];
  notify_enabled = true;
  dump_req = false;
  dump_first_seq = 0;
  adv_window_open = false;
  platform = record { work = []; timer = false; shown = false };
}

Reach-IsTimed_example : IsTimed sys sys-IsPlatform (disconnected sys (advertise_window sys off_air))
Reach-IsTimed_example =
    Reach-IsTimed sys sys-IsPlatform
      (Reach.next (Reach.next Reach.here (Step.press off_air))
        (Step.disconnect (advertise_window sys off_air)))
      refl

-- A node that advertises in its window.
abbrev in_window : Link Sys
in_window = record off_air {
  current_conn = none;
  refs = [];
  notify_enabled = false;
  adv_window_open = true;
  platform = record { work = []; timer = true; shown = true };
}

stays_visible_example :
    (t : Link Sys) × ReachLive sys in_window t
    × (t.current_conn ≡ none)
    × (t.adv_window_open ≡ false)
    × Looks sys t.platform (Work.on ∷ []) false false
    × ReachLive sys in_window (serve sys Work.on t)
    × ((serve sys Work.on t).adv_window_open ≡ false)
    × Looks sys (serve sys Work.on t).platform [] false true
stays_visible_example = stays_visible sys sys-IsPlatform in_window 1 refl refl (refl, refl, refl)

abbrev hw : List ℕ
hw = 1 ∷ 2 ∷ 3 ∷ 4 ∷ 5 ∷ 0xAB ∷ 0x0C ∷ 0xFF ∷ []

device_id_init_lem_example :
    (id : List ℕ) × (device_id_init (ℤ.pos 8) hw ≡ some id)
    × (length id ≡ device_id_len)
    × IsPrintable id
    × (take 2 id ≡ prefix)
    × (read_hex 0 (drop 2 id) ≡ serial (ℤ.pos 8) hw)
device_id_init_lem_example = device_id_init_lem (ℤ.pos 8) hw (omega arith)

-- The controller is out of buffers, and the third time the connection has ended.
abbrev leaves : ℕ → Attempt
leaves k = record { err = ℤ.negsuc 11; stays = ltb k 2 }

-- The central leaves, and another one comes.
abbrev alone : Link Sys
alone = disconnected sys off_air

abbrev next_central : Link Sys
next_central = connected Sys 2 0 (record alone { platform = sys.accept alone.platform })

ReachSingle-IsBalanced_example : IsBalanced next_central.current_conn next_central.refs
unfolding disconnected
ReachSingle-IsBalanced_example =
    ReachSingle-IsBalanced sys
      (ReachSingle.next (ReachSingle.next ReachSingle.here (Step.disconnect off_air) tt)
        (Step.connect alone 2 0) (inl refl))
      refl
