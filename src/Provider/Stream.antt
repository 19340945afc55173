-- ===== src/Provider/Stream.antt =====
-- What goes into the provider comes out of it: no byte is lost, repeated or reordered.
use fire_wire_audio.Prelude.{
  ℕ, ◌%◌, ◌<◌, ◌≡◌, refl, ap, ap₂, sym, ◌∙◌, List, [], ◌∷◌, ◌++◌, some, arith, leb, if◌then◌else◌,
  length, take, length-take,
}
use fire_wire_audio.Ring.{u32}
use fire_wire_audio.Ring.Valid.{IsValid, held}
use fire_wire_audio.Ring.Refine.{contents, length-contents}
use fire_wire_audio.Provider.{
  Provider, push_audio_data, fill_packet_data, fill_bytes, refused, silence, pulled, format_am824,
}
use mathlib.Core.List.{append_assoc, append-nil}
use fire_wire_audio.Provider.Calls.{
  IsBalanced, accepted, drawn, fill_bytes_cases, push_contents, push-IsBalanced, fill_contents,
  fill-IsBalanced,
}

-- The calls of a session: the client pushes, the transmitter fills packets.
pub data Call : Type 0 where
  pushes fills : List ℕ → Call

-- Every size fits the 32 bits of the ring's arguments.
unfoldable pub IsShort : List Call → Type 0
IsShort [] = Unit
IsShort (pushes src ∷ cs) = (length src < u32) × IsShort cs
IsShort (fills target ∷ cs) = (length target < u32) × IsShort cs

-- The session's last state, the audio accepted, and the audio that left in packets, labelled.
unfoldable pub session : Provider → List Call → Provider
session p [] = p
session p (pushes src ∷ cs) = session (push_audio_data p (some src)).1 cs
session p (fills target ∷ cs) = session (fill_packet_data p (some target)).provider cs

unfoldable pub taken_in : Provider → List Call → List ℕ
taken_in p [] = []
taken_in p (pushes src ∷ cs) = accepted p src ++ taken_in (push_audio_data p (some src)).1 cs
taken_in p (fills target ∷ cs) = taken_in (fill_packet_data p (some target)).provider cs

unfoldable pub sent : Provider → List Call → List ℕ
sent p [] = []
sent p (pushes src ∷ cs) = sent (push_audio_data p (some src)).1 cs
sent p (fills target ∷ cs) =
    let f = fill_packet_data p (some target) in
    (if f.result.generated_silence then [] else f.target) ++ sent f.provider cs

-- A list of whole samples is formatted piece by piece.
format_append :
    (xs ys : List ℕ)
    → length xs % 4 ≡ 0
    → format_am824 (xs ++ ys) ≡ format_am824 xs ++ format_am824 ys
unfolding format_am824
format_append [] ys h = refl
format_append (a ∷ []) ys h = absurd (omega arith)
format_append (a ∷ b ∷ []) ys h = absurd (omega arith)
format_append (a ∷ b ∷ c ∷ []) ys h = absurd (omega arith)
format_append (a ∷ b ∷ c ∷ d ∷ rest) ys h = rw (format_append rest ys (omega arith))

accepted-whole : (p : Provider) (src : List ℕ) → length (accepted p src) % 4 ≡ 0
unfolding accepted push_audio_data
accepted-whole p src = ground arith

drawn-whole : (p : Provider) (n : ℕ) → length (drawn p n) % 4 ≡ 0
unfolding drawn
drawn-whole p n =
    ground (arith, length-take n (contents p.audio_buffer), length-contents p.audio_buffer)

sent_bytes :
    (p : Provider) (n : ℕ)
    → IsValid p.audio_buffer
    → n < u32
    → let f = fill_bytes p n in
      (if f.result.generated_silence then [] else f.target)
      ≡ format_am824 (if leb n (held p.audio_buffer) then take n (contents p.audio_buffer) else [])
unfolding silence pulled format_am824
sent_bytes p n v small = rw (fill_bytes_cases p n v small) (ground arith)

sent_packet :
    (p : Provider) (target : List ℕ)
    → IsValid p.audio_buffer
    → length target < u32
    → let f = fill_packet_data p (some target) in
      (if f.result.generated_silence then [] else f.target) ≡ format_am824 (drawn p (length target))
unfolding fill_packet_data refused drawn format_am824
sent_packet p target v small = ground (arith, sent_bytes p (length target) v small)

-- Over any session of pushes and fills of less than 2^32 bytes each, from a balanced provider on:
-- the audio in the packets sent, followed by what the ring still holds, is what the ring held
-- first followed by the pushes that were accepted, each sample under its label and in bus order;
-- and the provider stays balanced.
pub session_stream :
    (cs : List Call) (p : Provider)
    → IsBalanced p
    → IsShort cs
    → IsBalanced (session p cs)
      × (sent p cs ++ format_am824 (contents (session p cs).audio_buffer)
          ≡ format_am824 (contents p.audio_buffer ++ taken_in p cs))
unfolding session taken_in sent IsShort
session_stream [] p v short = (v, ap format_am824 (sym (append-nil (contents p.audio_buffer))))
session_stream (pushes src ∷ cs) p v short =
    let (kept, flow) =
      session_stream cs (push_audio_data p (some src)).1 (push-IsBalanced p src v short.0)
        short.1 in
    (
      kept,
      rw
          (
            ← append_assoc (contents p.audio_buffer) (accepted p src)
                (taken_in (push_audio_data p (some src)).1 cs),
            ← push_contents p src v short.0,
          )
          flow,
    )
session_stream (fills target ∷ cs) p v short =
    let (kept, flow) =
      session_stream cs (fill_packet_data p (some target)).provider
        (fill-IsBalanced p target v short.0) short.1 in
    (
      kept,
      append_assoc packet (sent p' cs) (format_am824 (contents (session p' cs).audio_buffer))
          ∙ ap₂ ◌++◌ (sent_packet p target v.ring short.0) flow
          ∙ sym (
              format_append front (contents p'.audio_buffer ++ taken_in p' cs)
                (drawn-whole p (length target)))
          ∙ ap format_am824 (sym (append_assoc front (contents p'.audio_buffer) (taken_in p' cs)))
          ∙ ap (λ xs. format_am824 (xs ++ taken_in p' cs))
              (sym (fill_contents p target v.ring short.0)),
    )
  where
    p' : Provider
    p' = (fill_packet_data p (some target)).provider

    front : List ℕ
    front = drawn p (length target)

    packet : List ℕ
    packet =
        if (fill_packet_data p (some target)).result.generated_silence
        then []
        else (fill_packet_data p (some target)).target
