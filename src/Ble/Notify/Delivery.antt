-- ===== src/Ble/Notify/Delivery.antt =====
-- A notification is delivered once or not at all.
use n_rf5340_presence_test.Base.{
  ℕ, suc, ◌≡◌, Bool, ◌&&◌, List, [], ◌∷◌, ◌++◌, Option, if◌then◌else◌,
}
use n_rf5340_presence_test.Base.Int.{ℤ, is_neg}
use n_rf5340_presence_test.Ble.Notify.{is_enomem, notify_chunk}

-- What an attempt to notify is answered, and whether the connection is there two milliseconds later.
pub record Attempt : Type 0 where
  pub err : ℤ
  pub stays : Bool

-- A link that counts the attempts, and keeps what it has taken. `answers` is what each attempt to
-- come is answered; there is no last one.
pub record Link : Type 0 where
  pub tried : ℕ
  pub up : Bool
  pub sent : List (List ℕ)

abbrev pub take_it : ℤ → List (List ℕ) → List ℕ → List (List ℕ)
take_it err sent bytes = if is_neg err then sent else sent ++ bytes ∷ []

-- Out of buffers, and the connection stays.
abbrev pub is_busy : Attempt → Bool
is_busy a = is_enomem a.err && a.stays

abbrev pub IsDelivery : List (List ℕ) → List ℕ → ℤ × Link → Type 0
IsDelivery sent bytes (err, l) = l.sent ≡ take_it err sent bytes

module _ (answers : ℕ → Attempt) where
  abbrev pub notify : Link → List ℕ → ℤ × Link
  notify l bytes =
      let a = answers l.tried in
      (a.err, record { tried = suc l.tried; up = a.stays; sent = take_it a.err l.sent bytes })

  abbrev pub run : ℤ → ℕ → Link → List ℕ → Option (ℤ × Link)
  run enotconn fuel l bytes = notify_chunk Link notify (λ w. w) (λ w. w.up) enotconn fuel l bytes
