-- ===== src/Sha256/Streaming.antt =====
-- The buffer of common/hashing/sha256_portable.cpp against taking one byte after the other.
use mathlib.Core.List.{append_assoc}
use eml_to_pst.Base.{
  ℕ, zero, suc, ◌+◌, ◌-◌, ◌*◌, ◌%◌, ◌^◌, ◌≤◌, ◌<◌, ◌≡◌, refl, sym, ap, ◌∙◌, [], ◌∷◌, ◌++◌, Bool,
  true, false, ◌==◌, length, take, drop, min, arith, length-append, length-take, length-drop,
  take-append-drop,
}
use eml_to_pst.Base.Text.{Bytes}
use eml_to_pst.Sha256.{Impl, flushed, put, flush, absorb_from, absorb, update}

abbrev pub feed : ℕ → Impl → Impl
feed x s = flush (put (x ∷ []) s)

unfoldable pub feed_all : Bytes → Impl → Impl
feed_all [] s = s
feed_all (x ∷ xs) s = feed_all xs (feed x s)

pub feed_all-append : (a b : Bytes) (s : Impl) → feed_all (a ++ b) s ≡ feed_all b (feed_all a s)
unfolding feed_all
feed_all-append [] b s = refl
feed_all-append (x ∷ a) b s = feed_all-append a b (feed x s)

-- Between two calls the buffer is not full.
abbrev pub IsReady : Impl → Type 0
IsReady s = length s.buffer < 64

flushed-IsReady :
    (b : Bool) (s : Impl)
    → (length s.buffer == 64) ≡ b
    → length s.buffer ≤ 64
    → IsReady (flushed b s)
flushed-IsReady true s e h = omega arith
flushed-IsReady false s e h = ground arith

flush-IsReady : (s : Impl) → length s.buffer ≤ 64 → IsReady (flush s)
flush-IsReady s h = flushed-IsReady (length s.buffer == 64) s refl h

pub feed-IsReady : (x : ℕ) (s : Impl) → IsReady s → IsReady (feed x s)
feed-IsReady x s h =
    let size = length-append s.buffer (x ∷ []) in flush-IsReady (put (x ∷ []) s) (omega arith)

pub feed_all-IsReady : (xs : Bytes) (s : Impl) → IsReady s → IsReady (feed_all xs s)
unfolding feed_all
feed_all-IsReady [] s h = h
feed_all-IsReady (x ∷ xs) s h = feed_all-IsReady xs (feed x s) (feed-IsReady x s h)

not_full :
    (b : Bool) (s : Impl) → (length s.buffer == 64) ≡ b → length s.buffer < 64 → flushed b s ≡ s
not_full true s e h = absurd (ground arith)
not_full false s e h = refl

not_flushed : (s : Impl) → length s.buffer < 64 → flush s ≡ s
not_flushed s h = not_full (length s.buffer == 64) s refl h

-- Bytes that fit the buffer, put at once.
feed_all-put :
    (x : ℕ) (xs : Bytes) (s : Impl)
    → length s.buffer + length (x ∷ xs) ≤ 64
    → feed_all (x ∷ xs) s ≡ flush (put (x ∷ xs) s)
unfolding feed_all
feed_all-put x [] s h = refl
feed_all-put x (y ∷ ys) s h =
    let size = length-append s.buffer (x ∷ []) in
    ap (feed_all (y ∷ ys)) (not_flushed (put (x ∷ []) s) (omega arith))
    ∙ feed_all-put y ys (put (x ∷ []) s) (omega arith)
    ∙ ap (λ buffer. flush (record s { buffer = buffer })) (append_assoc s.buffer (x ∷ []) (y ∷ ys))

pub feed_all-take :
    (n x : ℕ) (xs : Bytes) (s : Impl)
    → 1 ≤ n
    → length s.buffer + n ≤ 64
    → feed_all (take n (x ∷ xs)) s ≡ flush (put (take n (x ∷ xs)) s)
feed_all-take zero x xs s h k = absurd (omega arith)
feed_all-take (suc n) x xs s h k =
    let size = length-take n xs in feed_all-put x (take n xs) s (omega arith)

absorb_from-feed_all :
    (fuel : ℕ) (xs : Bytes) (s : Impl)
    → length xs ≤ fuel
    → IsReady s
    → absorb_from fuel xs s ≡ feed_all xs s
unfolding absorb_from feed_all
absorb_from-feed_all zero [] s h r = refl
absorb_from-feed_all zero (x ∷ xs) s h r = absurd (omega arith)
absorb_from-feed_all (suc fuel) [] s h r = refl
absorb_from-feed_all (suc fuel) (x ∷ xs) s h r =
    let n = min (length (x ∷ xs)) (64 - length s.buffer) in
    let next = flush (put (take n (x ∷ xs)) s) in
    let left = length-drop n (x ∷ xs) in
    let taken = length-take n (x ∷ xs) in
    let size = length-append s.buffer (take n (x ∷ xs)) in
    absorb_from-feed_all fuel (drop n (x ∷ xs)) next (omega arith)
      (flush-IsReady (put (take n (x ∷ xs)) s) (omega arith))
    ∙ ap (feed_all (drop n (x ∷ xs))) (sym (feed_all-take n x xs s (omega arith) (omega arith)))
    ∙ sym (feed_all-append (take n (x ∷ xs)) (drop n (x ∷ xs)) s)
    ∙ ap (λ l. feed_all l s) (take-append-drop n (x ∷ xs))

pub absorb-feed_all : (xs : Bytes) (s : Impl) → IsReady s → absorb xs s ≡ feed_all xs s
unfolding absorb
absorb-feed_all xs s r = absorb_from-feed_all (length xs) xs s (omega arith) r

-- The number of bits has no part in what a byte does.
abbrev pub with_bits : ℕ → Impl → Impl
with_bits n s = record s { bit_length = n }

flushed-with_bits :
    (b : Bool) (n : ℕ) (s : Impl) → flushed b (with_bits n s) ≡ with_bits n (flushed b s)
flushed-with_bits true n s = refl
flushed-with_bits false n s = refl

pub feed_all-with_bits :
    (xs : Bytes) (n : ℕ) (s : Impl) → feed_all xs (with_bits n s) ≡ with_bits n (feed_all xs s)
unfolding feed_all
feed_all-with_bits [] n s = refl
feed_all-with_bits (x ∷ xs) n s =
    ap (feed_all xs) (flushed-with_bits (length (put (x ∷ []) s).buffer == 64) n (put (x ∷ []) s))
    ∙ feed_all-with_bits xs n (feed x s)

abbrev pub bits_after : ℕ → Bytes → ℕ
bits_after n xs = (n + length xs * 8) % 2 ^ 64

-- What an update does, with the bytes taken one after the other.
pub update-feed_all :
    (xs : Bytes) (s : Impl)
    → IsReady s
    → update xs s ≡ with_bits (bits_after s.bit_length xs) (feed_all xs s)
unfolding update
update-feed_all xs s r =
    absorb-feed_all xs (with_bits (bits_after s.bit_length xs) s) r
    ∙ feed_all-with_bits xs (bits_after s.bit_length xs) s

bits_twice : (n : ℕ) (a b : Bytes) → bits_after n (a ++ b) ≡ bits_after (bits_after n a) b
bits_twice n a b = let size = length-append a b in omega arith

-- How a message is cut into pieces has no influence: two updates, one with each part of it, leave
-- the state of one update with the whole.
pub update-append : (a b : Bytes) (s : Impl) → IsReady s → update (a ++ b) s ≡ update b (update a s)
update-append a b s r =
    let n = bits_after s.bit_length a in
    let fed = feed_all a s in
    update-feed_all (a ++ b) s r
    ∙ ap (λ t. with_bits (bits_after s.bit_length (a ++ b)) t) (feed_all-append a b s)
    ∙ ap (λ m. with_bits m (feed_all b fed)) (bits_twice s.bit_length a b)
    ∙ ap (with_bits (bits_after n b)) (sym (feed_all-with_bits b n fed))
    ∙ sym (update-feed_all b (with_bits n fed) (feed_all-IsReady a s r))
    ∙ ap (update b) (sym (update-feed_all a s r))
