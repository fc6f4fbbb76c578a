-- ===== src/Archive/Bytes.antt =====
-- Bytes of a snapshot, and the bounded read of `_read_bounded_bytes`.
use mathlib.Core.List.{append-nil, append_assoc}
use skills_sdk.Prelude.{
  length-append, refl, nat_eq, inl, sym, inr, Bool-cases, ap, ◌∙◌, some, leb, if◌then◌else◌, none,
  Option, ℕ, zero, suc, ◌+◌, ◌-◌, ◌*◌, ◌≤◌, ◌<◌, ◌≡◌, List, [], ◌∷◌, ◌++◌, length, take, drop,
  arith,
}
use Prim.Native.Nat.{min}

-- `snapshot[index]`; the program reads only inside the snapshot.
abbrev pub byte_at : List ℕ → ℕ → ℕ
byte_at [] i = 0
byte_at (b ∷ bs) zero = b
byte_at (b ∷ bs) (suc i) = byte_at bs i

-- The formats `<H` and `<I` of `struct.unpack_from`.
abbrev pub read_u16 : List ℕ → ℕ → ℕ
read_u16 bytes i = byte_at bytes i + 0x100 * byte_at bytes (i + 1)

abbrev pub read_u32 : List ℕ → ℕ → ℕ
read_u32 bytes i = read_u16 bytes i + 0x10000 * read_u16 bytes (i + 2)

-- `snapshot[start : start + 4]`
abbrev pub four_at : List ℕ → ℕ → List ℕ
four_at bytes start = take 4 (drop start bytes)

abbrev pub chunk_size : ℕ
chunk_size = 1024 * 1024

-- The loop of `_read_bounded_bytes`: `kept` is what `data` holds, `rest` what the stream still has.
-- The fuel is the number of rounds.
read_bounded_loop : ℕ → ℕ → List ℕ → List ℕ → Option (List ℕ)
read_bounded_loop zero limit kept rest = none
read_bounded_loop (suc fuel) limit kept rest =
    let size = min chunk_size (limit - length kept + 1) in
    let more = read_bounded_loop fuel limit (kept ++ take size rest) (drop size rest) in
    if leb (length kept) limit
    then (if nat_eq (length (take size rest)) 0 then some kept else more)
    else some kept

-- Each round but the last takes a byte or more, so `limit + 2` rounds are enough.
unfoldable pub read_bounded_bytes : List ℕ → ℕ → Option (List ℕ)
unfolding read_bounded_loop
read_bounded_bytes stream limit = read_bounded_loop (limit + 2) limit [] stream

take_nil : (n : ℕ) → take {A = ℕ} n [] ≡ []
take_nil zero = refl
take_nil (suc n) = refl

-- Taking in two steps, the second one counted from what the first has taken.
take_again :
    (n total : ℕ) (xs : List ℕ)
    → n ≤ total
    → take n xs ++ take (total - length (take n xs)) (drop n xs) ≡ take total xs
take_again zero total xs h = ap (λ k. take k xs) (omega arith)
take_again (suc n) total [] h = take_nil (total - 0) ∙ sym (take_nil total)
take_again (suc n) zero (x ∷ xs) h = absurd (omega arith)
take_again (suc n) (suc total) (x ∷ xs) h =
    ap (λ k. x ∷ (take n xs ++ take k (drop n xs))) (omega arith)
    ∙ ap (λ t. x ∷ t) (take_again n total xs (omega arith))

length-take-le : (n : ℕ) (xs : List ℕ) → length (take n xs) ≤ n
length-take-le zero xs = omega arith
length-take-le (suc n) [] = omega arith
length-take-le (suc n) (x ∷ xs) = omega (arith, length-take-le n xs)

empty_of_take : (n : ℕ) (xs : List ℕ) → 0 < n → length (take n xs) ≡ 0 → xs ≡ []
empty_of_take zero xs h e = absurd (omega arith)
empty_of_take (suc n) [] h e = refl
empty_of_take (suc n) (x ∷ xs) h e = absurd (omega arith)

chunk_bounds : (room : ℕ) → 0 < room → (0 < min chunk_size room) × (min chunk_size room ≤ room)
chunk_bounds room h = omega arith

-- Keeping a chunk and then what is left of the room is keeping the room at once.
keep_chunk :
    (size limit : ℕ) (kept rest : List ℕ)
    → size ≤ limit + 1 - length kept
    → (kept ++ take size rest)
        ++ take (limit + 1 - length (kept ++ take size rest)) (drop size rest)
      ≡ kept ++ take (limit + 1 - length kept) rest
keep_chunk size limit kept rest h =
    append_assoc kept (take size rest) _
    ∙ ap (λ k. kept ++ (take size rest ++ take k (drop size rest)))
        (omega (arith, length-append kept (take size rest)))
    ∙ ap (λ t. kept ++ t) (take_again size (limit + 1 - length kept) rest h)

-- With enough rounds the loop ends, and has kept the stream up to one byte above the limit.
read_bounded_loop_lem :
    (fuel limit : ℕ) (kept rest : List ℕ)
    → length kept ≤ limit + 1
    → limit + 1 - length kept < fuel
    → read_bounded_loop fuel limit kept rest ≡ some (kept ++ take (limit + 1 - length kept) rest)
unfolding read_bounded_loop
read_bounded_loop_lem zero limit kept rest h f = absurd (omega arith)
read_bounded_loop_lem (suc fuel) limit kept rest h f = elim (Bool-cases (leb (length kept) limit)) [
  | inr above ↦ let e : limit + 1 - length kept ≡ 0 = ground arith in rw (above, e, append-nil)
  | inl below ↦
      let size : ℕ = min chunk_size (limit - length kept + 1) in
      let room : length kept ≤ limit = ground arith in
      let (positive, small) = chunk_bounds (limit - length kept + 1) (omega arith) in
      elim (Bool-cases (nat_eq (length (take size rest)) 0)) [
        | inl ended ↦
            let e = empty_of_take size rest positive (ground arith) in
            rw (below, ended, e, take_nil, append-nil)
        | inr more ↦
            rw (below, more)
              (read_bounded_loop_lem fuel limit (kept ++ take size rest) (drop size rest)
                  (omega (arith, length-append kept (take size rest), length-take-le size rest))
                  (ground (arith, length-append kept (take size rest)))
                ∙ ap some (keep_chunk size limit kept rest (omega arith)))
      ]
]

-- The bounded read returns the first `limit + 1` bytes of the stream, or all of a shorter one.
pub read_bounded_bytes_lem :
    (stream : List ℕ) (limit : ℕ) → read_bounded_bytes stream limit ≡ some (take (limit + 1) stream)
unfolding read_bounded_bytes
read_bounded_bytes_lem stream limit =
    read_bounded_loop_lem (limit + 2) limit [] stream (omega arith) (omega arith)
    ∙ ap (λ k. some (take k stream)) (omega arith)
