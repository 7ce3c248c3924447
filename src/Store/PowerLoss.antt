-- ===== src/Store/PowerLoss.antt =====
-- `store_append` and `store_init` of store.c when the power fails between their writes to the
-- flash. NVS promises that a write that the power cuts off is either done or has no effect, so the
-- power fails after some number of whole writes.
pub mod Cut
pub mod Upgrade
use n_rf5340_presence_test.Base.{ℕ, zero, suc}
use n_rf5340_presence_test.Base.Int.{ℤ}
use n_rf5340_presence_test.Store.Nvs.{Nvs}
use n_rf5340_presence_test.Store.{Store}

module _ (nvs : Nvs) where
  -- A flash with the writes that the power still lasts for.
  abbrev pub Cut : Type 0
  Cut = ℕ × nvs.Fs

  -- What is asked of the flash when the power is gone has no effect on it.
  abbrev spend : Cut → ℤ × nvs.Fs → ℤ × Cut
  spend (zero, fs) done = (ℤ.pos 0, (zero, fs))
  spend (suc n, fs) done = (done.0, (n, done.1))

  -- The file system on such a flash.
  abbrev pub cut : Nvs
  cut = record {
    Fs = Cut;
    mount = λ f. ((nvs.mount f.1).0, (f.0, (nvs.mount f.1).1));
    clear = λ f. spend f (nvs.clear f.1);
    write = λ f id item. spend f (nvs.write f.1 id item);
    read = λ f id. nvs.read f.1 id;
  }

  abbrev pub powered : ℕ → Store nvs.Fs → Store Cut
  powered n s = record {
    fs = (n, s.fs);
    meta = s.meta;
    boot_offset = s.boot_offset;
    floor_seq = s.floor_seq;
  }
