-- ===== src/Sha256.antt =====
-- common/hashing/sha256_portable.cpp: SHA-256 as a state that takes bytes in pieces. A `uint32_t` is
-- a number below 2^32; sums and shifts to the left are reduced.
pub mod Streaming
pub mod Padding
use Prim.Native.Nat.{bit_and, bit_or, bit_xor}
use eml_to_pst.Base.{
  ℕ, zero, suc, ◌+◌, ◌-◌, ◌*◌, ◌/◌, ◌%◌, ◌^◌, List, [], ◌∷◌, ◌++◌, Bool, true, false, ◌==◌,
  if◌then◌else◌, length, take, drop, get_or, min,
}
use eml_to_pst.Base.Text.{Bytes}

abbrev pub round_constants : List ℕ
round_constants =
    0x428a2f98 ∷ 0x71374491 ∷ 0xb5c0fbcf ∷ 0xe9b5dba5 ∷ 0x3956c25b ∷ 0x59f111f1 ∷ 0x923f82a4
    ∷ 0xab1c5ed5 ∷ 0xd807aa98 ∷ 0x12835b01 ∷ 0x243185be ∷ 0x550c7dc3 ∷ 0x72be5d74 ∷ 0x80deb1fe
    ∷ 0x9bdc06a7 ∷ 0xc19bf174 ∷ 0xe49b69c1 ∷ 0xefbe4786 ∷ 0x0fc19dc6 ∷ 0x240ca1cc ∷ 0x2de92c6f
    ∷ 0x4a7484aa ∷ 0x5cb0a9dc ∷ 0x76f988da ∷ 0x983e5152 ∷ 0xa831c66d ∷ 0xb00327c8 ∷ 0xbf597fc7
    ∷ 0xc6e00bf3 ∷ 0xd5a79147 ∷ 0x06ca6351 ∷ 0x14292967 ∷ 0x27b70a85 ∷ 0x2e1b2138 ∷ 0x4d2c6dfc
    ∷ 0x53380d13 ∷ 0x650a7354 ∷ 0x766a0abb ∷ 0x81c2c92e ∷ 0x92722c85 ∷ 0xa2bfe8a1 ∷ 0xa81a664b
    ∷ 0xc24b8b70 ∷ 0xc76c51a3 ∷ 0xd192e819 ∷ 0xd6990624 ∷ 0xf40e3585 ∷ 0x106aa070 ∷ 0x19a4c116
    ∷ 0x1e376c08 ∷ 0x2748774c ∷ 0x34b0bcb5 ∷ 0x391c0cb3 ∷ 0x4ed8aa4a ∷ 0x5b9cca4f ∷ 0x682e6ff3
    ∷ 0x748f82ee ∷ 0x78a5636f ∷ 0x84c87814 ∷ 0x8cc70208 ∷ 0x90befffa ∷ 0xa4506ceb ∷ 0xbef9a3f7
    ∷ 0xc67178f2 ∷ []

abbrev add : ℕ → ℕ → ℕ
add a b = (a + b) % 2 ^ 32

unfoldable pub rotr : ℕ → ℕ → ℕ
rotr x n = bit_or (x / 2 ^ n) (x * 2 ^ (32 - n) % 2 ^ 32)

abbrev xor3 : ℕ → ℕ → ℕ → ℕ
xor3 a b c = bit_xor (bit_xor a b) c

-- `state`, or the working variables a to h.
pub record Words : Type 0 where
  pub a : ℕ
  pub b : ℕ
  pub c : ℕ
  pub d : ℕ
  pub e : ℕ
  pub f : ℕ
  pub g : ℕ
  pub h : ℕ

abbrev pub initial_words : Words
initial_words = record {
  a = 0x6a09e667;
  b = 0xbb67ae85;
  c = 0x3c6ef372;
  d = 0xa54ff53a;
  e = 0x510e527f;
  f = 0x9b05688c;
  g = 0x1f83d9ab;
  h = 0x5be0cd19;
}

-- The words of a block, four bytes each, the highest first.
unfoldable pub block_words : Bytes → List ℕ
block_words (p ∷ q ∷ r ∷ s ∷ bytes) = (p * 16777216 + q * 65536 + r * 256 + s) ∷ block_words bytes
block_words _ = []

unfoldable pub reverse_onto : List ℕ → List ℕ → List ℕ
reverse_onto [] done = done
reverse_onto (x ∷ xs) done = reverse_onto xs (x ∷ done)

-- w[i] from the words before it, the last of them first.
unfoldable pub next_word : List ℕ → ℕ
unfolding rotr
next_word w =
    let w15 = get_or w 14 0 in
    let w2 = get_or w 1 0 in
    let s0 = xor3 (rotr w15 7) (rotr w15 18) (w15 / 2 ^ 3) in
    let s1 = xor3 (rotr w2 17) (rotr w2 19) (w2 / 2 ^ 10) in
    add (add (add (get_or w 15 0) s0) (get_or w 6 0)) s1

unfoldable pub extend : ℕ → List ℕ → List ℕ
extend zero w = w
extend (suc n) w = extend n (next_word w ∷ w)

-- The 64 words of a block.
unfoldable pub schedule : Bytes → List ℕ
schedule block = reverse_onto (extend 48 (reverse_onto (block_words block) [])) []

unfoldable pub round : ℕ → ℕ → Words → Words
unfolding rotr
round k w v =
    let s1 = xor3 (rotr v.e 6) (rotr v.e 11) (rotr v.e 25) in
    let ch = bit_xor (bit_and v.e v.f) (bit_and (2 ^ 32 - 1 - v.e) v.g) in
    let temp1 = add (add (add (add v.h s1) ch) k) w in
    let s0 = xor3 (rotr v.a 2) (rotr v.a 13) (rotr v.a 22) in
    let maj = xor3 (bit_and v.a v.b) (bit_and v.a v.c) (bit_and v.b v.c) in
    let temp2 = add s0 maj in
    record {
      a = add temp1 temp2;
      b = v.a;
      c = v.b;
      d = v.c;
      e = add v.d temp1;
      f = v.e;
      g = v.f;
      h = v.g;
    }

unfoldable pub rounds : List ℕ → List ℕ → Words → Words
rounds (k ∷ ks) (w ∷ ws) v = rounds ks ws (round k w v)
rounds _ _ v = v

unfoldable pub process_block : Bytes → Words → Words
process_block block s =
    let v = rounds round_constants (schedule block) s in
    record {
      a = add s.a v.a;
      b = add s.b v.b;
      c = add s.c v.c;
      d = add s.d v.d;
      e = add s.e v.e;
      f = add s.f v.f;
      g = add s.g v.g;
      h = add s.h v.h;
    }

-- The bytes of `buffer` that are in use; `buffer_len` is their number.
pub record Impl : Type 0 where
  pub state : Words
  pub bit_length : ℕ
  pub buffer : Bytes

abbrev pub new_impl : Impl
new_impl = record { state = initial_words; bit_length = 0; buffer = [] }

abbrev pub flushed : Bool → Impl → Impl
flushed true s = record s { state = process_block s.buffer s.state; buffer = [] }
flushed false s = s

abbrev pub put : Bytes → Impl → Impl
put bytes s = record s { buffer = s.buffer ++ bytes }

-- A block that has become full is processed.
abbrev pub flush : Impl → Impl
flush s = flushed (length s.buffer == 64) s

-- The loop; each round takes a byte at least.
unfoldable pub absorb_from : ℕ → Bytes → Impl → Impl
absorb_from zero data_ s = s
absorb_from (suc fuel) [] s = s
absorb_from (suc fuel) (x ∷ xs) s =
    let n = min (length (x ∷ xs)) (64 - length s.buffer) in
    absorb_from fuel (drop n (x ∷ xs)) (flush (put (take n (x ∷ xs)) s))

unfoldable pub absorb : Bytes → Impl → Impl
absorb data_ s = absorb_from (length data_) data_ s

unfoldable pub update : Bytes → Impl → Impl
update data_ s = absorb data_ (record s { bit_length = (s.bit_length + length data_ * 8) % 2 ^ 64 })

-- Zeros until 56 bytes are in use.
unfoldable pub pad_zeros : ℕ → Impl → Impl
pad_zeros zero s = s
pad_zeros (suc fuel) s =
    let more = pad_zeros fuel (absorb (0 ∷ []) s) in if length s.buffer == 56 then s else more

-- The last `n` bytes of a number, the highest first.
unfoldable pub big_endian : ℕ → ℕ → Bytes
big_endian zero v = []
big_endian (suc n) v = big_endian n (v / 256) ++ v % 256 ∷ []

abbrev pub digest_of : Words → Bytes
digest_of s =
    big_endian 4 s.a
    ++ (big_endian 4 s.b
        ++ (big_endian 4 s.c
            ++ (big_endian 4 s.d
                ++ (big_endian 4 s.e
                    ++ (big_endian 4 s.f ++ (big_endian 4 s.g ++ big_endian 4 s.h))))))

-- The state behind the padding and the length; 64 zeros are more than are ever needed.
unfoldable pub padded_impl : Impl → Impl
padded_impl s = absorb (big_endian 8 s.bit_length) (pad_zeros 64 (absorb (0x80 ∷ []) s))

unfoldable pub finish : Impl → Bytes
finish s = digest_of (padded_impl s).state
