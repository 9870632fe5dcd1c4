-- ===== src/Package/Bytes.antt =====
-- Bytes and little-endian numbers, as encoding/binary reads and writes them. A byte is a number below
-- 256.
use watchlist_platform.Base.{
  ℕ, zero, suc, ◌+◌, ◌-◌, ◌*◌, ◌/◌, ◌%◌, ◌^◌, ◌≤◌, ◌<◌, ◌≡◌, refl, ap, ◌∙◌, List, [], ◌∷◌, ◌++◌,
  length, take, length-append, subst, arith,
}

abbrev pub Bytes : Type 0
Bytes = List ℕ

-- PutUint32 and PutUint64, for `w` bytes
unfoldable pub put_uint : ℕ → ℕ → Bytes
put_uint zero n = []
put_uint (suc w) n = n % 256 ∷ put_uint w (n / 256)

-- Uint32 and Uint64 of a slice of `w` bytes
unfoldable pub uint : Bytes → ℕ
uint [] = 0
uint (b ∷ bytes) = b + 256 * uint bytes

unfoldable pub drop : ℕ → Bytes → Bytes
drop zero bytes = bytes
drop (suc n) [] = []
drop (suc n) (b ∷ bytes) = drop n bytes

-- `bytes[low:high]`, where `low <= high <= len(bytes)`
unfoldable pub slice : ℕ → ℕ → Bytes → Bytes
unfolding drop
slice low high bytes = take (high - low) (drop low bytes)

pub length-put_uint : (w n : ℕ) → length (put_uint w n) ≡ w
unfolding put_uint
length-put_uint zero n = refl
length-put_uint (suc w) n = ap suc (length-put_uint w (n / 256))

pub uint-put_uint : (w n : ℕ) → n < 256 ^ w → uint (put_uint w n) ≡ n
unfolding uint put_uint
uint-put_uint zero n h = omega (arith, h)
uint-put_uint (suc w) n h =
    let power : 256 ^ suc w ≡ 256 * 256 ^ w = ground arith in
    omega (arith, uint-put_uint w (n / 256) (omega (arith, h, power)))

pub drop-append : (xs ys : Bytes) → drop (length xs) (xs ++ ys) ≡ ys
unfolding drop
drop-append [] ys = refl
drop-append (x ∷ xs) ys = drop-append xs ys

pub take-append : (xs ys : Bytes) → take (length xs) (xs ++ ys) ≡ xs
take-append [] ys = refl
take-append (x ∷ xs) ys = ap (λ l. x ∷ l) (take-append xs ys)

pub length-drop : (n : ℕ) (xs : Bytes) → length (drop n xs) ≡ length xs - n
unfolding drop
length-drop zero xs = omega arith
length-drop (suc n) [] = omega arith
length-drop (suc n) (x ∷ xs) = omega (arith, length-drop n xs)

pub length-take : (n : ℕ) (xs : Bytes) → n ≤ length xs → length (take n xs) ≡ n
length-take zero xs h = refl
length-take (suc n) [] h = absurd (omega (arith, h))
length-take (suc n) (x ∷ xs) h = ap suc (length-take n xs (omega (arith, h)))

-- the bytes from an offset on
unfoldable pub At : ℕ → Bytes → Bytes → Type 0
unfolding drop
At offset bytes rest = (offset ≤ length bytes) × (drop offset bytes ≡ rest)

pub At-length :
    (offset : ℕ) (bytes rest : Bytes) → At offset bytes rest → length bytes ≡ offset + length rest
unfolding At
At-length offset bytes rest h = omega (arith, h.0, length-drop offset bytes, ap length h.1)

drop-drop_append :
    (offset : ℕ) (bytes xs ys : Bytes)
    → drop offset bytes ≡ xs ++ ys
    → drop (offset + length xs) bytes ≡ ys
unfolding drop
drop-drop_append zero bytes xs ys h =
    subst (λ n. drop n bytes ≡ ys) {x = length xs} (omega arith)
      (ap (drop (length xs)) h ∙ drop-append xs ys)
drop-drop_append (suc n) [] [] ys h = subst (λ k. drop k [] ≡ ys) {x = suc n} (omega arith) h
drop-drop_append (suc n) [] (x ∷ xs) ys h = cc
drop-drop_append (suc n) (b ∷ bytes) xs ys h =
    subst (λ k. drop k (b ∷ bytes) ≡ ys) {x = suc (n + length xs)} (omega arith)
      (drop-drop_append n bytes xs ys h)

pub At-next :
    (offset : ℕ) (bytes xs ys : Bytes)
    → At offset bytes (xs ++ ys)
    → (slice offset (offset + length xs) bytes ≡ xs) × At (offset + length xs) bytes ys
unfolding slice At
At-next offset bytes xs ys h =
    let total = At-length offset bytes (xs ++ ys) h in
    (
      ap (λ l. take (offset + length xs - offset) l) h.1
          ∙ ap (λ n. take n (xs ++ ys)) (omega arith)
          ∙ take-append xs ys,
      (omega (arith, total, length-append xs ys), drop-drop_append offset bytes xs ys h.1),
    )
