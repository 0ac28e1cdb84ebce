-- ===== src/Tests/Sha256.antt =====
-- The digest of a short message, and instances of the theorems on the hash.
use eml_to_pst.Base.{◌/◌, ◌≡◌, refl, ◌++◌, arith, length}
use eml_to_pst.Base.Text.{codes}
use eml_to_pst.Sha256.{
  rotr, block_words, reverse_onto, next_word, extend, schedule, round, rounds, process_block,
  absorb_from, absorb, update, pad_zeros, big_endian, padded_impl, finish, new_impl, digest_of,
  initial_words,
}
use eml_to_pst.Sha256.Streaming.{update-append}
use eml_to_pst.Sha256.Padding.{padded, hash_blocks, finish-hash_blocks}

-- The example of FIPS 180-4.
digest_of_abc :
    finish (update (codes "abc") new_impl)
    ≡ big_endian 32 0xba7816bf8f01cfea414140de5dae2223b00361a396177a9cb410ff61f20015ad
unfolding finish padded_impl update absorb absorb_from pad_zeros big_endian process_block rounds
    round schedule extend next_word reverse_onto block_words rotr
digest_of_abc = refl

update-append_example :
    update (codes "a" ++ codes "bc") new_impl ≡ update (codes "bc") (update (codes "a") new_impl)
update-append_example = update-append (codes "a") (codes "bc") new_impl (omega arith)

finish-hash_blocks_example :
    finish (update (codes "abc") new_impl)
    ≡ digest_of
        (hash_blocks (length (padded (codes "abc")) / 64) (padded (codes "abc")) initial_words)
finish-hash_blocks_example = finish-hash_blocks (codes "abc")
