-- ===== src/Protocol/Codec/Stream.antt =====
-- PacketCodec over a stream: the answer does not depend on how the bytes are cut into reads.
use xlchat_project.Common.{
  ℕ, zero, suc, ◌+◌, ◌≤◌, ◌<◌, ◌≡◌, refl, ap, ◌∙◌, List, ◌++◌, arith, length, drop, Option, none,
  some, length-append, append_assoc, length-drop, take-append_le, drop-append_le, ◌⊎◌, inl, inr,
}
use xlchat_project.Protocol.{Packet, header_size}
use xlchat_project.Protocol.Words.{get32, get16-drop-append, get32-drop-append, get64-drop-append}
use xlchat_project.Protocol.Codec.{
  take_packet, next_packet, Decoded, need_more_data, invalid_data, packet_ready, FrameError, Read,
  waiting, closed, read_loop, on_ready_read,
}

-- A packet takes its header and more off the buffer.
pub next_packet_takes :
    (buffer rest : List ℕ) (p : Packet)
    → next_packet buffer ≡ packet_ready p rest
    → length rest + header_size ≤ length buffer
unfolding next_packet
next_packet_takes buffer rest p h =
    ground (arith, length-drop (header_size + get32 (drop 16 buffer)) buffer)

pub next_packet_waits : (buffer b : List ℕ) → next_packet buffer ≡ need_more_data b → b ≡ buffer
unfolding next_packet
next_packet_waits buffer b h = ground arith

pub take_packet-append :
    (n : ℕ) (buffer rest more : List ℕ) (p : Packet)
    → take_packet buffer n ≡ packet_ready p rest
    → header_size ≤ length buffer
    → take_packet (buffer ++ more) n ≡ packet_ready p (rest ++ more)
unfolding take_packet
take_packet-append n buffer rest more p h le = ground (
  arith,
  length-append buffer more,
  length-drop header_size buffer,
  get16-drop-append 4 buffer more,
  get16-drop-append 6 buffer more,
  get64-drop-append 8 buffer more,
  drop-append_le header_size buffer more,
  take-append_le n (drop header_size buffer) more,
  drop-append_le (header_size + n) buffer more,
)

-- More bytes behind a whole packet do not change it, and join the rest.
pub next_packet-append_ready :
    (buffer rest more : List ℕ) (p : Packet)
    → next_packet buffer ≡ packet_ready p rest
    → next_packet (buffer ++ more) ≡ packet_ready p (rest ++ more)
unfolding next_packet
next_packet-append_ready buffer rest more p h = ground (
  arith,
  length-append buffer more,
  get32-drop-append 0 buffer more,
  get16-drop-append 4 buffer more,
  get32-drop-append 16 buffer more,
  take_packet-append (get32 (drop 16 buffer)) buffer rest more p,
)

-- Nor do they mend an invalid header.
pub next_packet-append_invalid :
    (buffer rest more : List ℕ) (e : FrameError)
    → next_packet buffer ≡ invalid_data e rest
    → next_packet (buffer ++ more) ≡ invalid_data e rest
unfolding next_packet
next_packet-append_invalid buffer rest more e h = ground (
  arith,
  length-append buffer more,
  get32-drop-append 0 buffer more,
  get16-drop-append 4 buffer more,
  get32-drop-append 16 buffer more,
)

Decoded-cases :
    (d : Decoded)
    → ((b : List ℕ) × (d ≡ need_more_data b))
      ⊎ ((e : FrameError) × (b : List ℕ) × (d ≡ invalid_data e b))
      ⊎ ((p : Packet) × (b : List ℕ) × (d ≡ packet_ready p b))
Decoded-cases (need_more_data b) = inl (b, refl)
Decoded-cases (invalid_data e b) = inr (inl (e, b, refl))
Decoded-cases (packet_ready p b) = inr (inr (p, b, refl))

module _ {ℓ} {S : Type ℓ} (process : Packet → S → S) (reject : FrameError → S → S) where
  -- A read after a read; after the connection is closed nothing more is read.
  abbrev pub read_on : Option (Read S) → List ℕ → Option (Read S)
  read_on none bytes = none
  read_on (some (waiting b s)) bytes = on_ready_read process reject b bytes s
  read_on (some (closed b s)) bytes = some (closed b s)

  -- Any fuel above the buffer's length gives the same answer.
  read_loop_fuel :
      (f g : ℕ) (b : List ℕ) (s : S)
      → length b < f
      → length b < g
      → read_loop process reject f b s ≡ read_loop process reject g b s
  unfolding read_loop
  read_loop_fuel zero g b s hf hg = elim hf [ ]
  read_loop_fuel (suc f) zero b s hf hg = elim hg [ ]
  read_loop_fuel (suc f) (suc g) b s hf hg = elim (Decoded-cases (next_packet b)) [
    | inl (_, e) ↦ rw (e, read_loop)
    | inr (inl (_, _, e)) ↦ rw (e, read_loop)
    | inr (inr (p, c, e)) ↦
        let le : length c + header_size ≤ length b = next_packet_takes b c p e in
        rw (e, read_loop) (read_loop_fuel f g c (process p s) (omega arith) (omega arith))
  ]

  read_loop_total :
      (f : ℕ) (b : List ℕ) (s : S)
      → length b < f
      → (r : Read S) × (read_loop process reject f b s ≡ some r)
  unfolding read_loop
  read_loop_total zero b s hf = elim hf [ ]
  read_loop_total (suc f) b s hf = elim (Decoded-cases (next_packet b)) [
    | inl (x, e) ↦ (waiting x s, rw (e, read_loop))
    | inr (inl (x, c, e)) ↦ (closed c (reject x s), rw (e, read_loop))
    | inr (inr (p, c, e)) ↦
        let le : length c + header_size ≤ length b = next_packet_takes b c p e in
        rw (e, read_loop) (read_loop_total f c (process p s) (omega arith))
  ]

  -- The loop of `onReadyRead` ends, whatever bytes arrive.
  pub on_ready_read_total :
      (buffer bytes : List ℕ) (s : S)
      → (r : Read S) × (on_ready_read process reject buffer bytes s ≡ some r)
  unfolding on_ready_read
  on_ready_read_total buffer bytes s = read_loop_total _ (buffer ++ bytes) s (omega arith)

  waits_here :
      (f : ℕ) (b : List ℕ) (s : S) (x : List ℕ)
      → next_packet b ≡ need_more_data x
      → read_loop process reject (suc f) b s ≡ some (waiting b s)
  unfolding read_loop
  waits_here f b s x e = rw (e, read_loop) (ap (λ y. some (waiting y s)) (next_packet_waits b x e))

  read_loop-append :
      (f : ℕ) (b more : List ℕ) (s : S)
      → length (b ++ more) < f
      → read_loop process reject f (b ++ more) s ≡ read_on (read_loop process reject f b s) more
  unfolding read_loop on_ready_read
  read_loop-append zero b more s hf = elim hf [ ]
  read_loop-append (suc f) b more s hf = elim (Decoded-cases (next_packet b)) [
    | inl (x, e) ↦
        rw (waits_here f b s x e)
          (read_loop_fuel (suc f) (suc (length (b ++ more))) (b ++ more) s hf (omega arith))
    | inr (inl (x, c, e)) ↦ rw (e, next_packet-append_invalid b c more x e, read_loop)
    | inr (inr (p, c, e)) ↦
        let le : length c + header_size ≤ length b = next_packet_takes b c p e in
        rw (e, next_packet-append_ready b c more p e, read_loop)
          (read_loop-append f c more (process p s)
            (omega (arith, length-append b more, length-append c more)))
  ]

  -- Two reads in a row leave the connection as one read of all their bytes does: the same packets
  -- are processed in the same order, the same bytes wait, and the same error closes it.
  pub on_ready_read-append :
      (buffer first second : List ℕ) (s : S)
      → on_ready_read process reject buffer (first ++ second) s
        ≡ read_on (on_ready_read process reject buffer first s) second
  unfolding on_ready_read
  on_ready_read-append buffer first second s =
      let b : List ℕ = buffer ++ first in
      let n : length b ≤ length (b ++ second) = omega (arith, length-append b second) in
      rw (← append_assoc buffer first second) (
        read_loop-append _ b second s (omega arith)
        ∙ ap (λ r. read_on r second) (read_loop_fuel _ _ b s (omega arith) (omega arith)))
