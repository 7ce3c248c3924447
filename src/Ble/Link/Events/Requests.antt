-- ===== src/Ble/Link/Events/Requests.antt =====
-- Requests for a dump: the writes to the control characteristic, and what the dump thread makes of
-- them.
use n_rf5340_presence_test.Base.{
  ℕ, ◌≡◌, refl, ◌∙◌, ap, ap₂, Bool, true, List, [], ◌∷◌, Option, none, some, arith, ◌==◌,
  if◌then◌else◌, length, IsBytes, ◌>>=◌,
}
use n_rf5340_presence_test.Frame.Command.Laws.{asked, parse_cmd-asked}
use n_rf5340_presence_test.Ble.Link.{
  Link, Reply, written, invalid_offset, value_not_allowed, ctrl_write, dump_take,
}

-- A write: its bytes and its offset.
abbrev pub Write : Type 0
Write = List ℕ × ℕ

abbrev pub AreBytes : List Write → Type 0
AreBytes [] = Unit {0}
AreBytes ((buf, offset) ∷ ws) = IsBytes buf × AreBytes ws

-- The number that a write asks for, if it is accepted.
abbrev pub accepted : Write → Option ℕ
accepted (buf, offset) = if offset == 0 then asked buf else none

-- The last number that the writes ask for, after those before them.
abbrev pub last_asked : Option ℕ → List Write → Option ℕ
last_asked last [] = last
last_asked last (w ∷ ws) = last_asked (elim (accepted w) [ none ↦ last | some seq ↦ some seq ]) ws

module _ (P : Type 0) where
  -- The writes, one after the other.
  abbrev pub writes : List Write → Link P → Option (Link P)
  writes [] s = some s
  writes ((buf, offset) ∷ ws) s = do (reply, s') ← ctrl_write P buf offset s; writes ws s'

  -- What is asked for and not taken yet.
  abbrev pub pending : Link P → Option ℕ
  pending s = if s.dump_req then some s.dump_first_seq else none

  abbrev requested : Option ℕ → Link P → Link P
  requested none s = s
  requested (some seq) s = record s { dump_req = true; dump_first_seq = seq }

  abbrev reply_of : Write → Option ℕ → Reply
  reply_of (buf, offset) (some seq) = written (length buf)
  reply_of (buf, offset) none = if offset == 0 then value_not_allowed else invalid_offset

  -- A write that is refused changes nothing, and one that is accepted is pending.
  ctrl_write_lem :
      (buf : List ℕ) (offset : ℕ) (s : Link P)
      → IsBytes buf
      → let seq = accepted (buf, offset) in
        ctrl_write P buf offset s ≡ some (reply_of (buf, offset) seq, requested seq s)
  unfolding ctrl_write
  ctrl_write_lem buf offset s h = ground (arith, parse_cmd-asked buf h)

  pending-requested :
      (seq : Option ℕ) (s : Link P)
      → pending (requested seq s) ≡ (elim seq [ none ↦ pending s | some n ↦ some n ])
  pending-requested none s = refl
  pending-requested (some n) s = refl

  -- What the writes leave alone.
  abbrev Same : Link P → Link P → Type 0
  Same s t = (t.current_conn ≡ s.current_conn) × (t.notify_enabled ≡ s.notify_enabled)

  requested-Same : (seq : Option ℕ) (s : Link P) → Same s (requested seq s)
  requested-Same none s = (refl, refl)
  requested-Same (some n) s = (refl, refl)

  writes_lem :
      (ws : List Write) (s : Link P)
      → AreBytes ws
      → (t : Link P) × (writes ws s ≡ some t) × (pending t ≡ last_asked (pending s) ws) × Same s t
  writes_lem [] s h = (s, refl, refl, (refl, refl))
  writes_lem ((buf, offset) ∷ ws) s h =
      let seq = accepted (buf, offset) in
      let (t, e, p, (conn, notify)) = writes_lem ws (requested seq s) h.1 in
      let (conn', notify') = requested-Same seq s in
      (
        t,
        rw (ctrl_write_lem buf offset s h.0) e,
        p ∙ ap (λ (last : Option ℕ). last_asked last ws) (pending-requested seq s),
        (conn ∙ conn', notify ∙ notify'),
      )

  -- What a round of the dump thread does with a request, by the connection and the subscription.
  abbrev pub serves : Option ℕ → Bool → ℕ → Option (ℕ × ℕ)
  serves none notify seq = none
  serves (some conn) notify seq = if notify then some (conn, seq) else none

  dump_take_lem :
      (s : Link P) (seq : ℕ)
      → pending s ≡ some seq
      → ((dump_take P s).0 ≡ serves s.current_conn s.notify_enabled seq)
        × (pending (dump_take P s).1 ≡ none)
  unfolding dump_take
  dump_take_lem s seq e = (ground (arith, e), refl)

  -- However many bytes and whatever offsets are written to the control characteristic, accepted or
  -- not, and whether or not a request was pending: if any of it asks for a number, the next round
  -- of the dump thread serves the last one asked for, and only that, when there is a connection
  -- that has subscribed, and nothing otherwise. In both cases the request is used up.
  pub dump_take-writes :
      (ws : List Write) (s : Link P) (seq : ℕ)
      → AreBytes ws
      → last_asked (pending s) ws ≡ some seq
      → (t : Link P) × (writes ws s ≡ some t)
        × ((dump_take P t).0 ≡ serves s.current_conn s.notify_enabled seq)
        × (pending (dump_take P t).1 ≡ none)
  dump_take-writes ws s seq h last =
      let (t, e, p, (conn, notify)) = writes_lem ws s h in
      let (served, used) = dump_take_lem t seq (p ∙ last) in
      (t, e, served ∙ ap₂ (λ (c : Option ℕ) (n : Bool). serves c n seq) conn notify, used)
