-- ===== src/Sha256/Padding.antt =====
-- The digest of common/hashing/sha256_portable.cpp against the hash of the padded message, block by
-- block.
use eml_to_pst.Base.{
  ℕ, zero, suc, ◌+◌, ◌-◌, ◌*◌, ◌/◌, ◌%◌, ◌^◌, ◌≤◌, ◌<◌, ◌≡◌, refl, sym, ap, ◌∙◌, [], ◌∷◌, ◌++◌,
  Bool, true, false, leb, ◌==◌, if◌then◌else◌, length, take, drop, replicate, arith, length-append,
  length-take, length-drop, take-append-drop, length-replicate,
}
use eml_to_pst.Base.Text.{Bytes}
use eml_to_pst.Sha256.{
  Words, initial_words, process_block, Impl, new_impl, flushed, put, absorb, update, pad_zeros,
  big_endian, digest_of, padded_impl, finish,
}
use eml_to_pst.Sha256.Streaming.{
  feed, feed_all, feed_all-append, IsReady, feed-IsReady, feed_all-IsReady, absorb-feed_all,
  with_bits, feed_all-with_bits, bits_after, update-feed_all, feed_all-take,
}

-- How many zeros bring a buffer of `n` bytes to 56.
abbrev pub zeros_for : ℕ → ℕ
zeros_for n = if leb n 56 then 56 - n else 120 - n

length-flushed :
    (b : Bool) (s : Impl)
    → (length s.buffer == 64) ≡ b
    → length s.buffer ≤ 64
    → length (flushed b s).buffer ≡ length s.buffer % 64
length-flushed true s e h = ground arith
length-flushed false s e h = ground arith

fed_length : (x : ℕ) (s : Impl) → IsReady s → length (feed x s).buffer ≡ (length s.buffer + 1) % 64
fed_length x s r =
    let size = length-append s.buffer (x ∷ []) in
    length-flushed (length (put (x ∷ []) s).buffer == 64) (put (x ∷ []) s) refl (omega arith)
    ∙ ap (λ n. n % 64) size

fed_all_length :
    (xs : Bytes) (s : Impl)
    → IsReady s
    → length (feed_all xs s).buffer ≡ (length s.buffer + length xs) % 64
unfolding feed_all
fed_all_length [] s r = omega arith
fed_all_length (x ∷ xs) s r =
    let one = fed_length x s r in fed_all_length xs (feed x s) (feed-IsReady x s r) ∙ omega arith

if_true : (b : Bool) (x y : Impl) → b ≡ true → (if b then x else y) ≡ x
if_true true x y h = refl
if_true false x y h = absurd (cc)

if_false : (b : Bool) (x y : Impl) → b ≡ false → (if b then x else y) ≡ y
if_false true x y h = absurd (cc)
if_false false x y h = refl

one_zero_less : (l m n : ℕ) → l < 64 → m ≡ (l + 1) % 64 → zeros_for l ≡ suc n → zeros_for m ≡ n
one_zero_less l m n h e z = ground arith

pad_zeros-feed_all :
    (fuel : ℕ) (s : Impl) (n : ℕ)
    → IsReady s
    → zeros_for (length s.buffer) ≡ n
    → n < fuel
    → pad_zeros fuel s ≡ feed_all (replicate n 0) s
unfolding pad_zeros feed_all
pad_zeros-feed_all zero s n r e h = elim h [ ]
pad_zeros-feed_all (suc fuel) s zero r e h =
    if_true (length s.buffer == 56) s (pad_zeros fuel (absorb (0 ∷ []) s)) (ground arith)
pad_zeros-feed_all (suc fuel) s (suc n) r e h =
    let left = one_zero_less (length s.buffer) _ n r (fed_length 0 s r) e in
    if_false (length s.buffer == 56) s (pad_zeros fuel (absorb (0 ∷ []) s)) (ground arith)
    ∙ ap (pad_zeros fuel) (absorb-feed_all (0 ∷ []) s r)
    ∙ pad_zeros-feed_all fuel (feed 0 s) n (feed-IsReady 0 s r) left (omega arith)

-- A message with its padding: a byte 0x80, zeros, and the number of its bits in eight bytes.
abbrev pub padding : Bytes → Bytes
padding m =
    0x80 ∷ (replicate (zeros_for ((length m + 1) % 64)) 0 ++ big_endian 8 (length m * 8 % 2 ^ 64))

abbrev pub padded : Bytes → Bytes
padded m = m ++ padding m

length-big_endian : (n v : ℕ) → length (big_endian n v) ≡ n
unfolding big_endian
length-big_endian zero v = refl
length-big_endian (suc n) v =
    length-append (big_endian n (v / 256)) _ ∙ omega (arith, length-big_endian n (v / 256))

whole_blocks : (l : ℕ) → (l + suc (zeros_for ((l + 1) % 64) + 8)) % 64 ≡ 0
whole_blocks l = ground arith

few_zeros : (n : ℕ) → zeros_for (n % 64) < 64
few_zeros n = ground arith

length-padding : (m : Bytes) → length (padding m) ≡ suc (zeros_for ((length m + 1) % 64) + 8)
length-padding m =
    let n = zeros_for ((length m + 1) % 64) in
    let tail = big_endian 8 (length m * 8 % 2 ^ 64) in
    let zeros = length-replicate {A = ℕ} n 0 in
    let last = length-big_endian 8 (length m * 8 % 2 ^ 64) in
    let both = length-append (replicate {A = ℕ} n 0) tail in
    ap suc (both ∙ ap (λ k. k + length tail) zeros ∙ ap (λ k. n + k) last)

length-padded : (m : Bytes) → length (padded m) % 64 ≡ 0
length-padded m =
    ap (λ n. n % 64) (length-append m (padding m) ∙ ap (λ n. length m + n) (length-padding m))
    ∙ whole_blocks (length m)

padded_impl-feed_all :
    (s : Impl)
    → IsReady s
    → padded_impl s
      ≡ feed_all
          (0x80
            ∷ (replicate (zeros_for ((length s.buffer + 1) % 64)) 0 ++ big_endian 8 s.bit_length))
          s
unfolding padded_impl feed_all
padded_impl-feed_all s r =
    let n = zeros_for ((length s.buffer + 1) % 64) in
    let marked = feed 0x80 s in
    let ready = feed-IsReady 0x80 s r in
    let zeros = replicate {A = ℕ} n 0 in
    let bits = big_endian 8 s.bit_length in
    ap (λ t. absorb bits (pad_zeros 64 t)) (absorb-feed_all (0x80 ∷ []) s r)
    ∙ ap (absorb bits) (
        pad_zeros-feed_all 64 marked n ready (ap zeros_for (fed_length 0x80 s r))
          (few_zeros (length s.buffer + 1)))
    ∙ absorb-feed_all bits (feed_all zeros marked) (feed_all-IsReady zeros marked ready)
    ∙ sym (feed_all-append zeros bits marked)

-- The hash of whole blocks, one after the other.
unfoldable pub hash_blocks : ℕ → Bytes → Words → Words
hash_blocks zero m w = w
hash_blocks (suc n) m w = hash_blocks n (drop 64 m) (process_block (take 64 m) w)

abbrev clear : Words → ℕ → Impl
clear w bits = record { state = w; bit_length = bits; buffer = [] }

flush_block :
    (b : Bool) (block : Bytes) (w : Words) (bits : ℕ)
    → (length block == 64) ≡ b
    → length block ≡ 64
    → flushed b (put block (clear w bits)) ≡ clear (process_block block w) bits
flush_block true block w bits e h = refl
flush_block false block w bits e h = absurd (ground arith)

feed_all-hash_blocks :
    (n : ℕ) (m : Bytes) (w : Words) (bits : ℕ)
    → length m ≡ n * 64
    → feed_all m (clear w bits) ≡ clear (hash_blocks n m w) bits
unfolding hash_blocks feed_all
feed_all-hash_blocks zero [] w bits h = refl
feed_all-hash_blocks zero (x ∷ xs) w bits h = absurd (omega arith)
feed_all-hash_blocks (suc n) [] w bits h = absurd (omega arith)
feed_all-hash_blocks (suc n) (x ∷ xs) w bits h =
    let m = x ∷ xs in
    let size : length (take 64 m) ≡ 64 = length-take 64 m ∙ omega arith in
    let left : length (drop 64 m) ≡ n * 64 = length-drop 64 m ∙ omega arith in
    ap (λ l. feed_all l (clear w bits)) (sym (take-append-drop 64 m))
    ∙ feed_all-append (take 64 m) (drop 64 m) (clear w bits)
    ∙ ap (feed_all (drop 64 m)) (
        feed_all-take 64 x xs (clear w bits) (omega arith) (omega arith)
        ∙ flush_block (length (take 64 m) == 64) (take 64 m) w bits refl size)
    ∙ feed_all-hash_blocks n (drop 64 m) (process_block (take 64 m) w) bits left

same_padding :
    (l n : ℕ)
    → n ≡ l % 64
    → 0x80 ∷ (replicate {A = ℕ} (zeros_for ((n + 1) % 64)) 0 ++ big_endian 8 ((0 + l * 8) % 2 ^ 64))
      ≡ 0x80 ∷ (replicate {A = ℕ} (zeros_for ((l + 1) % 64)) 0 ++ big_endian 8 (l * 8 % 2 ^ 64))
same_padding l n e =
    let count : (n + 1) % 64 ≡ (l + 1) % 64 = omega arith in
    let bits : (0 + l * 8) % 2 ^ 64 ≡ l * 8 % 2 ^ 64 = omega arith in rw (count, bits) refl

padded_state :
    (m : Bytes) → (padded_impl (update m new_impl)).state ≡ (feed_all (padded m) new_impl).state
padded_state m =
    let fed = feed_all m new_impl in
    let b = bits_after 0 m in
    let ready : IsReady new_impl = omega arith in
    let size = fed_all_length m new_impl ready in
    ap (λ s. (padded_impl s).state) (update-feed_all m new_impl ready)
    ∙ ap (λ s. s.state) (padded_impl-feed_all (with_bits b fed) (feed_all-IsReady m new_impl ready))
    ∙ ap (λ p. (feed_all p (with_bits b fed)).state)
        (same_padding (length m) (length fed.buffer) (size ∙ omega arith))
    ∙ ap (λ s. s.state) (feed_all-with_bits (padding m) b fed)
    ∙ ap (λ s. s.state) (sym (feed_all-append m (padding m) new_impl))

-- The digest of a message is the hash of the padded message, block by block: the message, a byte
-- 0x80, the fewest zeros that leave eight bytes of a block, and the number of bits, modulo 2^64, in
-- those.
pub finish-hash_blocks :
    (m : Bytes)
    → finish (update m new_impl)
      ≡ digest_of (hash_blocks (length (padded m) / 64) (padded m) initial_words)
unfolding finish
finish-hash_blocks m =
    let n = length (padded m) / 64 in
    let whole = length-padded m in
    let size : length (padded m) ≡ n * 64 = omega arith in
    ap digest_of
      (padded_state m ∙ ap (λ s. s.state) (feed_all-hash_blocks n (padded m) initial_words 0 size))
