-- ===== src/Truncation/Tests.antt =====
-- A text of fifty-two characters cut to a cap.
use kyora.Base.{◌≡◌, ◌≤◌, refl, some, Text, codes, length, byte_len, decimal}
use kyora.Truncation.{truncate, Truncated, truncate_total, truncate-length}

abbrev alphabet : Text
alphabet = codes "abcdefghijklmnopqrstuvwxyzabcdefghijklmnopqrstuvwxyz"

abbrev shortened : Text
shortened = codes "abcdefg[... 39 characters omitted ...]uvwxyz"

truncated : truncate alphabet 44 ≡ some shortened
unfolding truncate byte_len decimal
truncated = refl

truncate_total_example :
    (out : Text) × (truncate alphabet 44 ≡ some out) × Truncated alphabet 44 out
truncate_total_example = truncate_total alphabet 44

truncate-length_example : length shortened ≤ 44
truncate-length_example = truncate-length alphabet 44 shortened truncated
