-- ===== src/Provider/Samples.antt =====
-- A sample on its way from the client's buffer to the receiver.
use fire_wire_audio.Prelude.{
  ℕ, ◌++◌, refl, zero, suc, ◌+◌, ◌*◌, ◌%◌, ◌^◌, ◌<◌, ◌≡◌, ap, List, [], ◌∷◌, arith, length, get_or,
  get_or-append_right,
}
use fire_wire_audio.Cip.Processor.{quadlet, sign_extend_24, sample_at}
use fire_wire_audio.Provider.{am824, big_endian, host_word, format_am824}

-- The i-th 32-bit sample of a host buffer.
unfoldable pub host_sample : List ℕ → ℕ → ℕ
host_sample bytes i =
    host_word (get_or bytes (4 * i) 0) (get_or bytes (4 * i + 1) 0) (get_or bytes (4 * i + 2) 0)
      (get_or bytes (4 * i + 3) 0)

big_endian_lem : (w : ℕ) → quadlet (big_endian w) 0 ≡ w % 2 ^ 32
unfolding quadlet
big_endian_lem w = omega arith

-- Four bytes in front move the next quadlets on by one.
shifted :
    (front rest : List ℕ) (i m : ℕ)
    → length front ≡ 4
    → get_or (front ++ rest) (4 * suc i + m) 0 ≡ get_or rest (4 * i + m) 0
shifted front rest i m e =
    get_or-append_right front rest (4 * suc i + m) (4 * i + m) 0 (omega arith)

shifted_first :
    (front rest : List ℕ) (i : ℕ)
    → length front ≡ 4
    → get_or (front ++ rest) (4 * suc i) 0 ≡ get_or rest (4 * i) 0
shifted_first front rest i e = get_or-append_right front rest (4 * suc i) (4 * i) 0 (omega arith)

quadlet_shift :
    (front rest : List ℕ) (i : ℕ)
    → length front ≡ 4
    → quadlet (front ++ rest) (4 * suc i) ≡ quadlet rest (4 * i)
unfolding quadlet
quadlet_shift front rest i e = rw (
  shifted_first front rest i e,
  shifted front rest i 1 e,
  shifted front rest i 2 e,
  shifted front rest i 3 e,
)

host_sample_shift :
    (front rest : List ℕ) (i : ℕ)
    → length front ≡ 4
    → host_sample (front ++ rest) (suc i) ≡ host_sample rest i
unfolding host_sample
host_sample_shift front rest i e = rw (
  shifted_first front rest i e,
  shifted front rest i 1 e,
  shifted front rest i 2 e,
  shifted front rest i 3 e,
)

first :
    (a b c d : ℕ) (rest more : List ℕ)
    → quadlet (big_endian (am824 (host_word a b c d)) ++ more) (4 * 0)
      ≡ am824 (host_sample (a ∷ b ∷ c ∷ d ∷ rest) 0)
unfolding quadlet host_sample
first a b c d rest more = omega arith

-- Each quadlet of the payload is the sample's low 24 bits under the label 0x40.
pub format-quadlet :
    (src : List ℕ) (i : ℕ)
    → 4 * i + 3 < length src
    → quadlet (format_am824 src) (4 * i) ≡ am824 (host_sample src i)
unfolding format_am824
format-quadlet [] i h = absurd (omega arith)
format-quadlet (a ∷ []) i h = absurd (omega arith)
format-quadlet (a ∷ b ∷ []) i h = absurd (omega arith)
format-quadlet (a ∷ b ∷ c ∷ []) i h = absurd (omega arith)
format-quadlet (a ∷ b ∷ c ∷ d ∷ rest) zero h = first a b c d rest (format_am824 rest)
format-quadlet (a ∷ b ∷ c ∷ d ∷ rest) (suc i) h =
    rw
      (
        quadlet_shift (big_endian (am824 (host_word a b c d))) (format_am824 rest) i refl,
        host_sample_shift (a ∷ b ∷ c ∷ d ∷ []) rest i refl,
      )
      (format-quadlet rest i (omega arith))

-- The receiver reads from each payload quadlet the low 24 bits of the client's sample, with their
-- sign.
pub format-sample_at :
    (src : List ℕ) (i : ℕ)
    → 4 * i + 3 < length src
    → sample_at (format_am824 src) (4 * i) ≡ sign_extend_24 (host_sample src i % 2 ^ 24)
unfolding sample_at
format-sample_at src i h =
    let low : quadlet (format_am824 src) (4 * i) % 2 ^ 24 ≡ host_sample src i % 2 ^ 24 =
      omega (arith, format-quadlet src i h) in
    ap sign_extend_24 low
