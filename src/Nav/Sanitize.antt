-- ===== src/Nav/Sanitize.antt =====
-- `sanitizeUtf8` and `sanitizeTag` of src/NavDB.cpp. The loops advance by the length of a sequence;
-- here the first argument counts the bytes of the sequence that are still to be copied.
use gpsxdb.Prelude.{ℕ, zero, suc, ◌-◌, ◌/◌, ◌^◌, Bool, true, false, ◌==◌, if◌then◌else◌, [], ◌∷◌}
use gpsxdb.Wkb.Hex.{Text}

-- How many bytes a sequence that starts with `c` has; 0 for no leading byte.
unfoldable pub lead_length : ℕ → ℕ
lead_length c =
    if c / 2 ^ 7 == 0
    then 1
    else if c / 2 ^ 5 == 6
    then 2
    else if c / 2 ^ 4 == 14
    then 3
    else if c / 2 ^ 3 == 30
    then 4
    else 0

unfoldable pub is_continuation : ℕ → Bool
is_continuation c = c / 2 ^ 6 == 2

-- The next `k` bytes exist and are continuation bytes.
unfoldable pub continues : ℕ → Text → Bool
continues zero s = true
continues (suc k) [] = false
continues (suc k) (c ∷ s) = if is_continuation c then continues k s else false

unfoldable pub is_kept : ℕ → Text → Bool
is_kept c s =
    if lead_length c == 0 then false else if c == 0 then false else continues (lead_length c - 1) s

unfoldable pub sanitize_from : ℕ → Text → Text
sanitize_from k [] = []
sanitize_from (suc k) (c ∷ s) = c ∷ sanitize_from k s
sanitize_from zero (c ∷ s) = elim (is_kept c s) [
  | true ↦ c ∷ sanitize_from (lead_length c - 1) s
  | false ↦ sanitize_from 0 s
]

unfoldable pub sanitize_utf8 : Text → Text
sanitize_utf8 s = sanitize_from 0 s

-- At the cut every byte that leads no sequence of one to three bytes counts four.
unfoldable pub cut_length : ℕ → ℕ
cut_length c =
    if c / 2 ^ 7 == 0 then 1 else if c / 2 ^ 5 == 6 then 2 else if c / 2 ^ 4 == 14 then 3 else 4

unfoldable pub cut_from : ℕ → ℕ → Text → Text
cut_from n k [] = []
cut_from n (suc k) (c ∷ s) = c ∷ cut_from n k s
cut_from zero zero (c ∷ s) = []
cut_from (suc n) zero (c ∷ s) = c ∷ cut_from n (cut_length c - 1) s

-- At most 256 code points.
unfoldable pub sanitize_tag : Text → Text
sanitize_tag s = cut_from 256 0 (sanitize_utf8 s)
