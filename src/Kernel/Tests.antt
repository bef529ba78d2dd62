-- ===== src/Kernel/Tests.antt =====
-- The constructors of the shared kernel on concrete values.
use youone_rnd.Shared.{◌≡◌, refl, true, not, map, all, ok, codes, ◌↔◌, ◌≤◌, ◌+◌}
use youone_rnd.Decimal.{Digits}
use youone_rnd.Kernel.{max_safe_integer, next_version, is_upper, to_lower, uuid, is_uuid, run_of}
use youone_rnd.Kernel.Laws.{next_version_iff, uuid_canonical}

abbrev mixed : Digits
mixed = codes "0190A2B3-1c4d-7e5f-8A6b-0123456789aB"

abbrev lower : Digits
lower = codes "0190a2b3-1c4d-7e5f-8a6b-0123456789ab"

abbrev other_case : Digits
other_case = codes "0190a2B3-1C4D-7e5f-8a6B-0123456789Ab"

uuid-mixed : uuid mixed ≡ ok lower
unfolding uuid is_uuid run_of
uuid-mixed = refl

uuid_canonical_example :
    (all (λ c. not (is_upper c)) lower ≡ true)
    × (uuid lower ≡ ok lower)
    × ((uuid other_case ≡ ok lower) ↔ (map to_lower other_case ≡ map to_lower mixed))
uuid_canonical_example = uuid_canonical mixed other_case lower uuid-mixed

next_version_iff_example : (next_version 3 ≡ ok 4) ↔ ((4 ≡ 3 + 1) × (4 ≤ max_safe_integer))
next_version_iff_example = next_version_iff 3 4
