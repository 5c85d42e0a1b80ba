-- ===== src/Uuids.antt =====
-- Texts of uuids that are read back, for runs of the program on concrete data: the text of a number is
-- as long as the number.
use ability_framework.Prelude.{ℕ, zero, suc, String, Option, some, ◌≡◌, refl, ap}

abbrev pub tally_of : ℕ → String
tally_of zero = String.[]
tally_of (suc n) = String.◌∷◌ "i" (tally_of n)

abbrev pub tally_in : String → ℕ
tally_in String.[] = zero
tally_in (String.◌∷◌ c s) = suc (tally_in s)

abbrev pub read_tally : String → Option ℕ
read_tally s = some (tally_in s)

pub tally_in-tally_of : (n : ℕ) → tally_in (tally_of n) ≡ n
tally_in-tally_of zero = refl
tally_in-tally_of (suc n) = ap suc (tally_in-tally_of n)

pub read_tally-tally_of : (n : ℕ) → read_tally (tally_of n) ≡ some n
read_tally-tally_of n = ap some (tally_in-tally_of n)
