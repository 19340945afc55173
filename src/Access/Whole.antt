-- ===== src/Access/Whole.antt =====
-- Reading from a target that serves a descriptor gives its bytes.
use fire_wire_audio.Prelude.{
  ℕ, zero, suc, ◌+◌, ◌-◌, ◌*◌, ◌%◌, ◌^◌, ◌≤◌, ◌<◌, ◌≡◌, refl, ap, sym, ◌∙◌, inl, inr, min, false,
  not, ◌&&◌, List, [], ◌∷◌, ◌++◌, arith, ltb, leb, ◌==◌, if◌then◌else◌, length, drop, take,
  length-take, length-drop, take_all, drop-drop, Bool-cases, ltb→lt, ltb_false→le, leb→le,
  leb_false→lt, take_more, take-append-drop,
}
use fire_wire_audio.Prelude.Expected.{value}
use mathlib.Core.List.{append_assoc}
use native.Mathlib.Nat.{mod-eq_of_lt}
use fire_wire_audio.Access.{
  Response, read_loop, trimmed, read_from, max_read_attempts, remaining, chunk_size,
}
use fire_wire_audio.Access.Commands.{read}
use fire_wire_audio.Access.Serve.{AnswersReads, command_prefix, chunk_bytes, round}

-- A piece, and what is behind it.
piece :
    (n m k offset : ℕ) (read memory : List ℕ)
    → k ≡ n + m
    → (read ++ take n (drop offset memory)) ++ take m (drop (offset + n) memory)
      ≡ read ++ take k (drop offset memory)
piece n m k offset read memory e =
    append_assoc read (take n (drop offset memory)) (take m (drop (offset + n) memory))
    ∙ ap (λ xs. read ++ (take n (drop offset memory) ++ take m xs))
        (sym (drop-drop n offset (offset + n) memory (omega arith)))
    ∙ ap (λ xs. read ++ xs) (take_more n m k (drop offset memory) e)

chunk-length :
    (n offset : ℕ) (memory : List ℕ)
    → offset + n ≤ length memory
    → length (take n (drop offset memory)) ≡ n
chunk-length n offset memory h =
    omega (arith, length-take n (drop offset memory), length-drop offset memory)

module _ {D : Type 0} (send : List ℕ → D → Response × D) (target kind : ℕ) (memory : List ℕ)
    (device : D) (served : AnswersReads send target kind memory device)
    (small : length memory < 2 ^ 16) where
  abbrev prefix : List ℕ
  prefix = command_prefix target kind

  -- All that is left, in rounds of 128 bytes.
  all_read :
      (left offset total : ℕ) (read : List ℕ)
      → offset ≤ length memory
      → length memory < offset + 128 * left
      → read_loop send prefix 0 left offset total read device
        ≡ (value (read ++ drop offset memory), device)
  all_read zero offset total read inside enough = absurd (omega arith)
  all_read (suc left) offset total read inside enough =
      let bytes = chunk_bytes memory 128 offset in
      round send target kind memory device served 0 left offset total 128 read (omega arith) refl
        (omega arith) (omega arith) refl
      ∙ elim (Bool-cases (ltb (offset + 128) (length memory))) [
        | inl more ↦
            let far = ltb→lt _ _ more in
            let place : (offset + length bytes) % 2 ^ 16 ≡ offset + 128 =
              ap (λ k. (offset + k) % 2 ^ 16) (chunk-length 128 offset memory (omega arith))
              ∙ mod-eq_of_lt (omega arith) in
            rw (more, place)
              (all_read left (offset + 128) _ (read ++ bytes) (omega arith) (omega arith)
                ∙ ap (λ xs. (value xs, device))
                    (append_assoc read bytes (drop (offset + 128) memory)
                      ∙ ap (λ xs. read ++ (bytes ++ xs))
                          (sym (drop-drop 128 offset (offset + 128) memory (omega arith)))
                      ∙ ap (λ xs. read ++ xs) (sym (take-append-drop 128 (drop offset memory)))))
        | inr last ↦
            let whole : bytes ≡ drop offset memory =
              take_all 128 (drop offset memory)
                (omega (arith, ltb_false→le _ _ last, length-drop offset memory)) in
            rw last (ap (λ xs. (value (read ++ xs), device)) whole)
      ]

  remaining_lem :
      (wanted total : ℕ)
      → total ≤ wanted
      → wanted < 2 ^ 16
      → remaining wanted total ≡ wanted - total
  remaining_lem wanted total h w = omega arith

  -- As much as is wanted, as far as there is that much.
  wanted_read :
      (left wanted offset total : ℕ) (read : List ℕ)
      → total < wanted
      → wanted < 2 ^ 16
      → offset ≤ length memory
      → length memory < offset + 128 * left
      → read_loop send prefix wanted left offset total read device
        ≡ (value (read ++ take (wanted - total) (drop offset memory)), device)
  wanted_read zero wanted offset total read short low inside enough = absurd (omega arith)
  wanted_read (suc left) wanted offset total read short low inside enough =
      let some : (wanted == 0) ≡ false = ground arith in
      let rest = remaining_lem wanted total (omega arith) low in
      let n = min 128 (wanted - total) in
      let ask : chunk_size wanted total ≡ n = rw (some, rest) refl in
      let goes : (not (wanted == 0) && (remaining wanted total == 0)) ≡ false =
        ground (arith, rest) in
      round send target kind memory device served wanted left offset total n read (omega arith) ask
        (omega arith) (omega arith) goes
      ∙ rw some (elim (Bool-cases (ltb (offset + n) (length memory))) [
        | inl more ↦
            let far = ltb→lt _ _ more in
            let got = chunk-length n offset memory (omega arith) in
            let place : (offset + length (chunk_bytes memory n offset)) % 2 ^ 16 ≡ offset + n =
              ap (λ k. (offset + k) % 2 ^ 16) got ∙ mod-eq_of_lt (omega arith) in
            let count : (total + length (chunk_bytes memory n offset)) % 2 ^ 16 ≡ total + n =
              ap (λ k. (total + k) % 2 ^ 16) got ∙ mod-eq_of_lt (omega arith) in
            rw (more, count)
              (elim (Bool-cases (leb wanted (total + n))) [
                | inl met ↦ rw met (
                    ap (λ k. (value (read ++ take k (drop offset memory)), device))
                      (omega (arith, leb→le _ _ met)))
                | inr unmet ↦
                    let under = leb_false→lt _ _ unmet in
                    rw (unmet, place, count)
                      (wanted_read left wanted (offset + n) (total + n)
                          (read ++ chunk_bytes memory n offset) under low (omega arith)
                          (omega arith)
                        ∙ ap (λ xs. (value xs, device))
                            (piece n (wanted - (total + n)) (wanted - total) offset read memory
                              (omega arith)))
              ])
        | inr last ↦
            let whole : take n (drop offset memory) ≡ take (wanted - total) (drop offset memory) =
              take_all n (drop offset memory)
                (omega (arith, ltb_false→le _ _ last, length-drop offset memory))
              ∙ sym (
                  take_all (wanted - total) (drop offset memory)
                    (omega (arith, ltb_false→le _ _ last, length-drop offset memory))) in
            rw last (ap (λ xs. (value (read ++ xs), device)) whole)
      ])

-- Nothing is cut from what was wanted.
fits :
    (wanted : ℕ) (bytes : List ℕ)
    → 0 < wanted
    → trimmed wanted (value (take (wanted - 0) bytes))
      ≡ value (if wanted == 0 then bytes else take wanted bytes)
unfolding trimmed
fits wanted bytes some =
    let all : wanted - 0 ≡ wanted = omega arith in
    let short : ltb wanted (length (take wanted bytes)) ≡ false =
      ground (arith, length-take wanted bytes) in
    let wants : (wanted == 0) ≡ false = ground arith in rw (all, wants) (ground (arith, short))

-- Reading without a length from a target that serves a descriptor shorter than 64 KiB under a specifier
-- of one byte gives everything from the offset on; reading with a length gives that many bytes, or all
-- there are when they are fewer. In both cases the 1024 attempts are enough.
pub read_serves :
    {D : Type 0} (send : List ℕ → D → Response × D) (target kind : ℕ) (memory : List ℕ) (device : D)
    (offset wanted : ℕ)
    → AnswersReads send target kind memory device
    → length memory < 2 ^ 16
    → offset ≤ length memory
    → wanted < 2 ^ 16
    → read send target (kind ∷ []) offset wanted device ≡ (
      value (if wanted == 0 then drop offset memory else take wanted (drop offset memory)),
      device,
    )
unfolding read read_from trimmed
read_serves send target kind memory device offset zero served small inside low =
    ap (λ a. (trimmed 0 a.0, a.1))
      (all_read send target kind memory device served small max_read_attempts offset 0 [] inside
        (omega arith))
read_serves send target kind memory device offset (suc w) served small inside low =
    ap (λ a. (trimmed (suc w) a.0, a.1))
      (wanted_read send target kind memory device served small max_read_attempts (suc w) offset 0 []
        (omega arith) low inside (omega arith))
    ∙ ap (λ r. (r, device)) (fits (suc w) (drop offset memory) (omega arith))
