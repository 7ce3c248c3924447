-- ===== src/Ble/Link/Zephyr.antt =====
-- What ble.c calls of Zephyr: the work queue and the Bluetooth stack's advertiser, which are not
-- part of the repository. Their operations are a parameter, and `IsPlatform` is what the
-- documentation promises of them.
use n_rf5340_presence_test.Base.{◌≡◌, Bool, true, false, List, [], ◌∷◌, ◌++◌, if◌then◌else◌}
use n_rf5340_presence_test.Base.Int.{ℤ, is_zero}

-- `adv_on_work` and `adv_off_work`
pub data Work : Type 0 where
  on : Work
  off : Work

abbrev pub same : Work → Work → Bool
same on on = true
same on off = false
same off on = false
same off off = true

abbrev pub queued : Work → List Work → Bool
queued w [] = false
queued w (v ∷ vs) = if same w v then true else queued w vs

-- Work that waits already is not submitted again.
abbrev pub enqueue : Work → List Work → List Work
enqueue w ws = if queued w ws then ws else ws ++ w ∷ []

-- `k_work_submit`, `k_work_reschedule` of `adv_off_work`, `bt_le_adv_start` and `bt_le_adv_stop`.
-- Then what Zephyr does by itself: the timer of `adv_off_work` ends, the queue's thread takes the
-- first item, a central connects. Then what can be seen: the work that waits, whether the timer
-- runs, and whether the node advertises.
pub record Platform : Type 1 where
  pub P : Type 0
  pub submit : Work → P → P
  pub reschedule : P → P
  pub adv_start : P → ℤ × P
  pub adv_stop : P → P
  pub expire : P → P
  pub take_work : P → P
  pub accept : P → P
  pub queue : P → List Work
  pub armed : P → Bool
  pub advertising : P → Bool

-- What can be seen of a state.
abbrev pub Looks : (pf : Platform) → pf.P → List Work → Bool → Bool → Type 0
Looks pf p queue armed advertising =
    (pf.queue p ≡ queue) × (pf.armed p ≡ armed) × (pf.advertising p ≡ advertising)

pub record IsPlatform (pf : Platform) : Type 0 where
  pub submits :
      (w : Work) (p : pf.P)
      → Looks pf (pf.submit w p) (enqueue w (pf.queue p)) (pf.armed p) (pf.advertising p)
  pub reschedules : (p : pf.P) → Looks pf (pf.reschedule p) (pf.queue p) true (pf.advertising p)
  pub starts :
      (p : pf.P)
      → Looks pf
          (pf.adv_start p).1
          (pf.queue p)
          (pf.armed p)
          (if is_zero (pf.adv_start p).0 then true else pf.advertising p)
  pub stops : (p : pf.P) → Looks pf (pf.adv_stop p) (pf.queue p) (pf.armed p) false
  pub expires :
      (p : pf.P) → Looks pf (pf.expire p) (enqueue Work.off (pf.queue p)) false (pf.advertising p)
  pub takes :
      (p : pf.P) (w : Work) (rest : List Work)
      → pf.queue p ≡ w ∷ rest
      → Looks pf (pf.take_work p) rest (pf.armed p) (pf.advertising p)
  pub accepts : (p : pf.P) → Looks pf (pf.accept p) (pf.queue p) (pf.armed p) false
