-- ===== src/Radar/Stream/Receive.antt =====
-- A frame on the wire is delivered, whatever the hunt had matched before it.
use n_rf5340_presence_test.Base.{
  ℕ, zero, suc, ◌+◌, ◌≤◌, ◌<◌, ◌≡◌, refl, ◌∙◌, ap, true, false, List, [], ◌∷◌, ◌++◌, some, arith,
  ltb, ◌==◌, if◌then◌else◌, length, drop, IsBytes, length-append, length-drop, drop-drop,
  IsBytes-drop, append_assoc, put-append, IsBytes-append, IsBytes-append_left, IsBytes-append_right,
}
use n_rf5340_presence_test.Tlv.{magic, magic_len, hdr_len, max_frame, rd_u32}
use n_rf5340_presence_test.Tlv.Read.{le32, rd_u32-eq-le32, le32-append_left}
use n_rf5340_presence_test.Tlv.Reasm.{Reasm, reset, push, hunted, collect, header, finish}
use n_rf5340_presence_test.Radar.Stream.{pump, pump_quiet, pump_frame}

-- A frame as the radar sends it: the magic word, then a header that claims the true length.
pub record IsFrame (f : List ℕ) : Type 0 where
  pub body : List ℕ
  pub starts : f ≡ magic ++ body
  pub bytes : IsBytes f
  pub least : hdr_len ≤ length f
  pub most : length f ≤ max_frame
  pub claimed : le32 f 12 ≡ length f

-- Hunting, with `m` bytes of the magic word matched.
abbrev pub hunting : List ℕ → ℕ → Reasm
hunting buf m = record { buf = buf; len = 0; want = 0; match = m }

-- `seen` is stored, and a frame of `n` bytes is claimed.
abbrev reading : ℕ → List ℕ → List ℕ → Reasm
reading n seen rest = record {
  buf = seen ++ rest;
  len = length seen;
  want = if ltb (length seen) hdr_len then 0 else n;
  match = 0;
}

abbrev finished : ℕ → List ℕ → Reasm
finished n buf = record { buf = buf; len = n; want = 0; match = 0 }

module _ (n : ℕ) (least : hdr_len ≤ n) (most : n ≤ max_frame) where
  abbrev stored_at : List ℕ → ℕ → List ℕ → Reasm
  stored_at seen b rest = record {
    buf = seen ++ b ∷ rest;
    len = length seen + 1;
    want = if ltb (length seen + 1) hdr_len then 0 else n;
    match = 0;
  }

  stored_at-eq-reading :
      (seen : List ℕ) (b : ℕ) (rest : List ℕ)
      → stored_at seen b rest ≡ reading n (seen ++ b ∷ []) rest
  stored_at-eq-reading seen b rest =
      rw (append_assoc seen (b ∷ []) rest, length-append seen (b ∷ [])) refl

  -- One more byte of the frame.
  push-reading :
      (seen : List ℕ) (y : ℕ) (rest : List ℕ) (b : ℕ)
      → magic_len ≤ length seen
      → length seen < n
      → (length seen + 1 ≡ hdr_len → rd_u32 (seen ++ b ∷ rest) 12 ≡ some n)
      → push (reading n seen (y ∷ rest)) b
        ≡ some (
            if length seen + 1 == n
            then (true, finished n (seen ++ b ∷ rest))
            else (false, stored_at seen b rest))
  unfolding push collect header finish
  push-reading seen y rest b started short read = ground (arith, put-append seen y rest b)

  push_last :
      (seen : List ℕ) (y : ℕ) (rest : List ℕ) (b : ℕ)
      → magic_len ≤ length seen
      → length seen + 1 ≡ n
      → (length seen + 1 ≡ hdr_len → rd_u32 (seen ++ b ∷ rest) 12 ≡ some n)
      → push (reading n seen (y ∷ rest)) b ≡ some (true, finished n (seen ++ b ∷ rest))
  push_last seen y rest b started last read =
      push-reading seen y rest b started (omega arith) read ∙ ground arith

  push_more :
      (seen : List ℕ) (y : ℕ) (rest : List ℕ) (b : ℕ)
      → magic_len ≤ length seen
      → length seen + 1 < n
      → (length seen + 1 ≡ hdr_len → rd_u32 (seen ++ b ∷ rest) 12 ≡ some n)
      → push (reading n seen (y ∷ rest)) b ≡ some (false, reading n (seen ++ b ∷ []) rest)
  push_more seen y rest b started more read =
      push-reading seen y rest b started (omega arith) read
      ∙ ground (arith, stored_at-eq-reading seen b rest)

  -- The claimed length is read once the header is stored.
  header_read :
      (seen : List ℕ) (b : ℕ) (todo rest : List ℕ)
      → IsBytes (seen ++ b ∷ rest)
      → le32 (seen ++ b ∷ todo) 12 ≡ n
      → length seen + 1 ≡ hdr_len
      → rd_u32 (seen ++ b ∷ rest) 12 ≡ some n
  header_read seen b todo rest bytes claim full =
      rd_u32-eq-le32 (seen ++ b ∷ rest) 12 bytes (omega (arith, length-append seen (b ∷ rest)))
      ∙ ap some (
          omega (
            arith,
            le32-append_left (seen ++ b ∷ []) rest 12 inside,
            le32-append_left (seen ++ b ∷ []) todo 12 inside,
            ap (λ (t : List ℕ). le32 t 12) (append_assoc seen (b ∷ []) rest),
            ap (λ (t : List ℕ). le32 t 12) (append_assoc seen (b ∷ []) todo),
          ))
    where
      inside : 15 < length (seen ++ b ∷ [])
      inside = omega (arith, length-append seen (b ∷ []))

  IsBytes-store :
      (seen : List ℕ) (y b : ℕ) (rest : List ℕ)
      → IsBytes (seen ++ y ∷ rest)
      → b < 256
      → IsBytes (seen ++ b ∷ rest)
  IsBytes-store seen y b rest h hb =
      IsBytes-append seen (b ∷ rest) (IsBytes-append_left seen (y ∷ rest) h)
        (hb, (IsBytes-append_right seen (y ∷ rest) h).1)

  receive_rest :
      (todo seen rest : List ℕ)
      → magic_len ≤ length seen
      → length seen < n
      → length seen + length todo ≡ n
      → length todo ≤ length rest
      → IsBytes (seen ++ rest)
      → IsBytes todo
      → le32 (seen ++ todo) 12 ≡ n
      → pump (reading n seen rest) todo
        ≡ some (
          ((seen ++ todo) ++ drop (length todo) rest) ∷ [],
          hunting ((seen ++ todo) ++ drop (length todo) rest) 0,
        )
  unfolding reset
  receive_rest [] seen rest started short whole fits bytes new claim = absurd (omega arith)
  receive_rest (b ∷ todo) seen [] started short whole fits bytes new claim = absurd (omega arith)
  receive_rest (b ∷ []) seen (y ∷ rest) started short whole fits bytes new claim =
      pump_frame (reading n seen (y ∷ rest)) b [] {r'' = hunting (seen ++ b ∷ rest) 0} {frames = []}
        (push_last seen y rest b started whole
          (header_read seen b [] rest (IsBytes-store seen y b rest bytes new.0) claim))
        (unfold pump in refl)
      ∙ rw (append_assoc seen (b ∷ []) rest) refl
  receive_rest (b ∷ c ∷ todo) seen (y ∷ rest) started short whole fits bytes new claim =
      let stored_bytes = IsBytes-store seen y b rest bytes new.0 in
      let grown = length-append seen (b ∷ []) in
      pump_quiet (reading n seen (y ∷ rest)) b (c ∷ todo) (
        push_more seen y rest b started (omega arith)
          (header_read seen b (c ∷ todo) rest stored_bytes claim))
      ∙ rw (← append_assoc seen (b ∷ []) (c ∷ todo)) (
          receive_rest (c ∷ todo) (seen ++ b ∷ []) rest (omega (arith, grown))
            (omega (arith, grown)) (omega (arith, grown)) (omega arith)
            (rw (append_assoc seen (b ∷ []) rest) stored_bytes) new.1
            (rw (append_assoc seen (b ∷ []) (c ∷ todo)) claim))

-- The first magic byte counts from any state of the hunt: no other byte of the word is equal to it.
hunt_first :
    (buf : List ℕ) (m : ℕ) → m < magic_len → push (hunting buf m) 2 ≡ some (false, hunting buf 1)
unfolding push hunted
hunt_first buf zero h = refl
hunt_first buf (suc zero) h = refl
hunt_first buf (suc (suc zero)) h = refl
hunt_first buf (suc (suc (suc zero))) h = refl
hunt_first buf (suc (suc (suc (suc zero)))) h = refl
hunt_first buf (suc (suc (suc (suc (suc zero))))) h = refl
hunt_first buf (suc (suc (suc (suc (suc (suc zero)))))) h = refl
hunt_first buf (suc (suc (suc (suc (suc (suc (suc zero))))))) h = refl
hunt_first buf (suc (suc (suc (suc (suc (suc (suc (suc m)))))))) h = absurd (omega arith)

-- The other bytes of the magic word.
hunt_rest :
    (n : ℕ) (buf body : List ℕ)
    → pump (hunting buf 1) (1 ∷ 4 ∷ 3 ∷ 6 ∷ 5 ∷ 8 ∷ 7 ∷ body)
      ≡ pump (reading n magic (drop magic_len buf)) body
unfolding push hunted
hunt_rest n buf body =
    pump_quiet (hunting buf 1) 1 (4 ∷ 3 ∷ 6 ∷ 5 ∷ 8 ∷ 7 ∷ body) refl
    ∙ pump_quiet (hunting buf 2) 4 (3 ∷ 6 ∷ 5 ∷ 8 ∷ 7 ∷ body) refl
    ∙ pump_quiet (hunting buf 3) 3 (6 ∷ 5 ∷ 8 ∷ 7 ∷ body) refl
    ∙ pump_quiet (hunting buf 4) 6 (5 ∷ 8 ∷ 7 ∷ body) refl
    ∙ pump_quiet (hunting buf 5) 5 (8 ∷ 7 ∷ body) refl
    ∙ pump_quiet (hunting buf 6) 8 (7 ∷ body) refl
    ∙ pump_quiet (hunting buf 7) 7 body refl

-- The buffer after the frame `f`: the frame, then what was there before.
abbrev pub overlay : List ℕ → List ℕ → List ℕ
overlay f buf = f ++ drop (length f) buf

receive_body :
    (body buf : List ℕ) (m : ℕ)
    → IsBytes (magic ++ body)
    → hdr_len ≤ length (magic ++ body)
    → length (magic ++ body) ≤ max_frame
    → le32 (magic ++ body) 12 ≡ length (magic ++ body)
    → m < magic_len
    → length buf ≡ max_frame
    → IsBytes buf
    → pump (hunting buf m) (magic ++ body)
      ≡ some (overlay (magic ++ body) buf ∷ [], hunting (overlay (magic ++ body) buf) 0)
receive_body body buf m bytes least most claim hm room old =
    pump_quiet (hunting buf m) 2 (1 ∷ 4 ∷ 3 ∷ 6 ∷ 5 ∷ 8 ∷ 7 ∷ body) (hunt_first buf m hm)
    ∙ hunt_rest n buf body
    ∙ receive_rest n least most body magic (drop magic_len buf) (omega arith) (omega arith)
        (omega arith) (omega (arith, length-drop magic_len buf))
        (IsBytes-append magic (drop magic_len buf) (omega arith) (IsBytes-drop magic_len buf old))
        (IsBytes-append_right magic body bytes) claim
    ∙ ap (λ (t : List ℕ). some ((magic ++ (body ++ t)) ∷ [], hunting (magic ++ (body ++ t)) 0))
        (drop-drop (length body) magic_len buf
          ∙ ap (λ (k : ℕ). drop k buf) {y = length (magic ++ body)} (omega arith))
  where
    n : ℕ
    n = length (magic ++ body)

-- From any state of the hunt, a frame on the wire is delivered once, whole and unchanged, with its
-- last byte; the reassembler is then back at the start of the hunt.
pub receive :
    (f buf : List ℕ) (m : ℕ)
    → IsFrame f
    → m < magic_len
    → length buf ≡ max_frame
    → IsBytes buf
    → pump (hunting buf m) f ≡ some (overlay f buf ∷ [], hunting (overlay f buf) 0)
receive f buf m h hm room old = rw h.starts (
    receive_body h.body buf m (rw h.starts at h.bytes) (rw h.starts at h.least)
      (rw h.starts at h.most) (rw h.starts at h.claimed) hm room old)
