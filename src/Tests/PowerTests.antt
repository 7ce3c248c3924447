-- ===== src/Tests/PowerTests.antt =====
-- A power loss at concrete inputs.
use n_rf5340_presence_test.Base.{
  ℕ, ◌+◌, ◌≡◌, ◌⊎◌, refl, ◌&&◌, ◌||◌, none, leb, ◌==◌, if◌then◌else◌, arith,
}
use n_rf5340_presence_test.Base.Int.{ℤ, is_zero}
use n_rf5340_presence_test.Store.{capacity, append, get, init, at_boot}
use n_rf5340_presence_test.Store.Boot.{old_meta}
use n_rf5340_presence_test.Store.PowerLoss.Cut.{power_loss}
use n_rf5340_presence_test.Store.PowerLoss.Cut
use n_rf5340_presence_test.Store.PowerLoss.Upgrade.{upgrade_cut}
use n_rf5340_presence_test.Store.PowerLoss.Upgrade
use n_rf5340_presence_test.Tests.StoreTests.{
  ram, ram-IsNvs, fresh, fresh-IsRing, fresh-IsSaved, no_log, sample_record, ready, foreign_flash,
}

power_loss_example :
    let out = append ram fresh 31000 sample_record in
    let (code, s') =
      init ram ready (at_boot ram (Cut.left ram ram-IsNvs 1 fresh 31000 sample_record)) in
    let t = if leb 2 1 && is_zero out.code then out.store else fresh in
    (code ≡ ℤ.pos 0)
    × (s'.meta ≡ t.meta)
    × ((q : ℕ) → (get ram s' q ≡ get ram t q) ⊎ ((get ram s' q ≡ none) × (q + capacity ≡ 5)))
power_loss_example =
    power_loss ram ram-IsNvs ready 1 fresh no_log 31000 sample_record (refl, refl) refl
      fresh-IsSaved fresh-IsRing (omega arith)

upgrade_cut_example :
    let s = (init ram ready (at_boot ram (Upgrade.left ram ram-IsNvs ready 2 foreign_flash))).1 in
    s.meta ≡ (
      if 2 == 0 || leb 4 2
      then old_meta ram ram-IsNvs foreign_flash
      else record { next_seq = 0; base_sec = 0 })
unfolding init
upgrade_cut_example =
    upgrade_cut ram ram-IsNvs ready 2 foreign_flash (refl, refl) (λ fs. refl)
      (λ e. omega (arith, e)) refl
