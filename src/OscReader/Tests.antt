-- ===== src/OscReader/Tests.antt =====
-- A file with two blocks, and numbers printed in decimal digits.
use gpsxdb.Prelude.{
  ℕ, zero, suc, ◌+◌, ◌/◌, ◌%◌, ◌^◌, ◌<◌, ◌≤◌, sym, ap, ◌∙◌, true, false, ltb, ◌==◌, if◌then◌else◌,
  Bool-cases, inl, inr, ◌++◌, arith, ◌≡◌, refl, List, [], ◌∷◌, Option, none, some, length,
}
use gpsxdb.Prelude.Int.{ℤ, pos, negsuc, eqb_ℤ}
use gpsxdb.Bytes.{Double}
use gpsxdb.Bytes.Signed.{IsI64}
use gpsxdb.Replicator.Path.{digits, path_value, path_value-digits}
use gpsxdb.Wkb.Hex.{Text}
use gpsxdb.Nav.{same_text, find_tag}
use gpsxdb.Delta.{modify, delete}
use gpsxdb.OscReader.{ParseState, parse, name_of}
use gpsxdb.OscReader.Names.{name_text, ref_text}
use gpsxdb.OscReader.Printed.{
  node_element, way_element, relation_element, Block, file_changes, file_events, IsNormal,
  AreWritten,
}
use gpsxdb.OscReader.RoundTrip.{parse-file_events}

-- Decimal digits, after a minus sign if the number is below 0.
abbrev print_int : ℤ → Text
print_int (pos n) = digits (suc n) n
print_int (negsuc n) = 45 ∷ digits (suc (suc n)) (suc n)

abbrev scan_negative : ℕ → Option ℤ
scan_negative zero = some (pos 0)
scan_negative (suc n) = if ltb n (2 ^ 63) then some (negsuc n) else none

abbrev scan_positive : ℕ → Option ℤ
scan_positive n = if ltb n (2 ^ 63) then some (pos n) else none

-- Out of the range of 64 bits there is no number.
abbrev scan_int : Text → Option ℤ
scan_int [] = none
scan_int (c ∷ cs) =
    if c == 45 then scan_negative (path_value 0 cs) else scan_positive (path_value 0 (c ∷ cs))

-- The first digit.
digits-cons : (fuel n : ℕ) → n < fuel → (x : ℕ) × (cs : Text) × (digits fuel n ≡ (48 + x) ∷ cs)
unfolding digits
digits-cons zero n h = absurd (omega arith)
digits-cons (suc fuel) n h = elim (Bool-cases (ltb n 10)) [
  | inl e ↦ (n, [], rw e refl)
  | inr e ↦
      let big : 10 ≤ n = ground arith in
      let (x, cs, k) = digits-cons fuel (n / 10) (omega arith) in
      (x, cs ++ ((48 + n % 10) ∷ []), rw (e, k) refl)
]

scan-print_int : (z : ℤ) → IsI64 z → scan_int (print_int z) ≡ some z
scan-print_int (pos n) h =
    let (x, cs, e) = digits-cons (suc n) n (omega arith) in
    let minus : (48 + x == 45) ≡ false = ground arith in
    let value : path_value 0 ((48 + x) ∷ cs) ≡ n =
      sym (ap (path_value 0) e) ∙ path_value-digits (suc n) n (omega arith) in
    let small : ltb n (2 ^ 63) ≡ true = ground arith in
    ap scan_int e
    ∙ ap
        (λ b.
          if b
          then scan_negative (path_value 0 cs)
          else scan_positive (path_value 0 ((48 + x) ∷ cs)))
        minus
    ∙ ap scan_positive value
    ∙ rw small refl
scan-print_int (negsuc n) h =
    let small : ltb n (2 ^ 63) ≡ true = ground arith in
    ap scan_negative (path_value-digits (suc (suc n)) (suc n) (omega arith)) ∙ rw small refl

-- The pattern of a double, in the same digits.
abbrev print_double : Double → Text
print_double d = digits (suc d) d

abbrev scan_double : Text → Option Double
scan_double [] = none
scan_double (c ∷ cs) = some (path_value 0 (c ∷ cs))

scan-print_double : (d : Double) → IsNormal d → scan_double (print_double d) ≡ some d
scan-print_double d h =
    let (x, cs, e) = digits-cons (suc d) d (omega arith) in
    let value : path_value 0 ((48 + x) ∷ cs) ≡ d =
      sym (ap (path_value 0) e) ∙ path_value-digits (suc d) d (omega arith) in
    ap scan_double e ∙ ap some value

abbrev two_blocks : List Block
two_blocks =
    (
      modify,
      node_element (record {
        id = pos 7;
        name = b'A' ∷ [];
        tags = (name_text, b'A' ∷ []) ∷ [];
        lon = 0x3ff0000000000000;
        lat = 0x4000000000000000;
      })
          ∷ way_element (record {
            id = negsuc 1;
            name = [];
            tags = (ref_text, b'B' ∷ []) ∷ [];
            node_refs = pos 7 ∷ negsuc 0 ∷ [];
          })
          ∷ [],
    )
    ∷ (
      delete,
      relation_element (record { id = pos 9; name = []; tags = []; way_members = pos 5 ∷ [] }) ∷ [],
    )
    ∷ []

double_one-IsNormal : IsNormal 0x3ff0000000000000
double_one-IsNormal = (omega arith, inr (omega arith, omega arith))

double_two-IsNormal : IsNormal 0x4000000000000000
double_two-IsNormal = (omega arith, inr (omega arith, omega arith))

two_blocks_written : AreWritten two_blocks
unfolding name_of find_tag same_text eqb_ℤ
two_blocks_written = (
  (
    ((refl, tt), refl, omega arith, double_two-IsNormal, double_one-IsNormal),
    (((refl, tt), refl, ((omega arith, refl), ((omega arith, refl), tt)), omega arith), tt),
  ),
  (((tt, refl, ((omega arith, refl), tt), omega arith), tt), tt),
)

parse-file_events_example :
    (t : ParseState) × (parse scan_int scan_double (file_events print_int print_double two_blocks)
      ≡ some t)
    × (t.out ≡ file_changes two_blocks)
    × (t.count ≡ length (file_changes two_blocks))
parse-file_events_example =
    parse-file_events scan_int scan_double print_int print_double scan-print_int scan-print_double
      two_blocks two_blocks_written
