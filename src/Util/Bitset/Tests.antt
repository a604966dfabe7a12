-- ===== src/Util/Bitset/Tests.antt =====
-- Runs of the bit set.
use os.Prelude.{ℕ, ◌≡◌, refl, true, false, not, [], ◌∷◌, some, ◌==◌, arith}
use os.Prelude.Int.{pos}
use os.Util.Bitset.{Bitset, bitset_init, bitset_set, bitset_clear, bitset_test, bitset_ffub}
use os.Util.Bitset.Laws.{member, IsBitset, Changed, bitset-bits}
use os.Util.Bitset.Search.{Found, bitset_ffub-Found}

abbrev sample : Bitset
sample = record { size = 2; bytes = 0xff ∷ 0x05 ∷ [] }

sample-IsBitset : IsBitset sample
sample-IsBitset = record { bytes = omega arith; size = refl }

-- A set of 9 bits takes 16 bytes.
init_rounds_up :
    bitset_init true 9
    ≡ some (record {
      size = 16;
      bytes = 0 ∷ 0 ∷ 0 ∷ 0 ∷ 0 ∷ 0 ∷ 0 ∷ 0 ∷ 0 ∷ 0 ∷ 0 ∷ 0 ∷ 0 ∷ 0 ∷ 0 ∷ 0 ∷ [];
    })
unfolding bitset_init
init_rounds_up = refl

ffub-sample : bitset_ffub sample ≡ (record sample { bytes = 0xff ∷ 0x07 ∷ [] }, pos 9)
unfolding bitset_ffub
ffub-sample = refl

bitset-bits_example :
    ((s : Bitset) × (bitset_set sample 12 ≡ some s) × Changed sample 12 true s)
    × (((s : Bitset) × (bitset_clear sample 12 ≡ some s) × Changed sample 12 false s)
        × ((r : ℕ) × (bitset_test sample 12 ≡ some r) × (not (r == 0) ≡ member sample.bytes 12)))
bitset-bits_example = bitset-bits sample 12 sample-IsBitset (omega arith)

bitset_ffub-Found_example : Found sample (bitset_ffub sample)
bitset_ffub-Found_example = bitset_ffub-Found sample sample-IsBitset (omega arith)
