-- ===== src/Tests/ServeTests.antt =====
-- A client's requests and the dump that answers them at concrete inputs.
use n_rf5340_presence_test.Base.{ℕ, ◌≡◌, refl, true, Bool, List, [], ◌∷◌, none, some, Option, arith}
use n_rf5340_presence_test.Store.{append}
use n_rf5340_presence_test.Store.Ring.Later.{Later}
use n_rf5340_presence_test.Ble.Dump.Wire.{Log}
use n_rf5340_presence_test.Ble.Link.{Link}
use n_rf5340_presence_test.Ble.Link.Events.Requests.{Write, writes, pending}
use n_rf5340_presence_test.Ble.Serve.Answered.{IsServed, round, dump_round-writes}
use n_rf5340_presence_test.Tests.StoreTests.{ram, ram-IsNvs, sample_record}
use n_rf5340_presence_test.Tests.DumpTests.{
  takes, name, one_held, one_logged, one_held-IsRing, grown_store,
}
use n_rf5340_presence_test.Tests.LinkTests.{Sys, off_air}

-- A request, one that is refused by its offset, one by its length, and one for all records.
abbrev asks : List Write
asks =
    (1 ∷ 5 ∷ 0 ∷ 0 ∷ 0 ∷ [], 0)
    ∷ (1 ∷ 6 ∷ 0 ∷ 0 ∷ 0 ∷ [], 2)
    ∷ (1 ∷ 7 ∷ 0 ∷ 0 ∷ [], 0)
    ∷ (1 ∷ 0 ∷ 0 ∷ 0 ∷ 0 ∷ [], 0)
    ∷ []

abbrev mtu : ℕ → ℕ
mtu conn = 247

dump_round-writes_example :
    (t t' : Link Sys) × (out : Option Bool × Log) × (writes Sys asks off_air ≡ some t)
    × (round ram (λ conn. takes) one_held (λ q. one_held) grown_store mtu name Sys t
        ≡ some (out, t'))
    × (pending Sys t' ≡ none)
    × IsServed ram
        (λ conn. takes)
        one_held
        (λ q. one_held)
        grown_store
        mtu
        name
        one_logged
        (some 1)
        true
        0
        out
unfolding append
dump_round-writes_example =
    dump_round-writes ram ram-IsNvs (λ conn. takes) one_held one_logged one_held-IsRing
      (λ q. one_held) grown_store (λ q. Later.now)
      (λ q. Later.after one_held 61000 sample_record Later.now (omega arith)) mtu name Sys asks
      off_air 0 (omega arith) refl (omega arith)
