-- ===== src/Replicator/Path.antt =====
-- `sequenceToPath` of src/Replicator.cpp, with the decimal digits that a stream writes.
use gpsxdb.Prelude.{
  ℕ, zero, suc, ◌+◌, ◌-◌, ◌*◌, ◌/◌, ◌%◌, ◌≡◌, ◌≤◌, ◌<◌, refl, sym, ◌∙◌, ap, true, false, ltb, ◌==◌,
  if◌then◌else◌, Bool-cases, inl, inr, arith, [], ◌∷◌, ◌++◌, length, length-append, append-nil,
  replicate,
}
use gpsxdb.Wkb.Hex.{Text}

-- 48 is the code of the digit 0. As fuel, the number itself is enough.
unfoldable pub digits : ℕ → ℕ → Text
digits zero n = []
digits (suc fuel) n =
    let rest = digits fuel (n / 10) in
    if ltb n 10 then (48 + n) ∷ [] else rest ++ ((48 + n % 10) ∷ [])

-- `setw(3) << setfill('0') << n`.
unfoldable pub padded : ℕ → Text
padded n = let text = digits (suc n) n in replicate (3 - length text) 48 ++ text

unfoldable pub sequence_to_path : ℕ → Text
sequence_to_path seq =
    padded (seq / 1000000) ++ (47 ∷ (padded (seq / 1000 % 1000) ++ (47 ∷ padded (seq % 1000))))

-- The decimal number after `acc`; the slashes, of the code 47, are left out.
abbrev pub path_value : ℕ → Text → ℕ
path_value acc [] = acc
path_value acc (c ∷ cs) = path_value (if c == 47 then acc else acc * 10 + (c - 48)) cs

path_value-append :
    (acc : ℕ) (xs ys : Text) → path_value acc (xs ++ ys) ≡ path_value (path_value acc xs) ys
path_value-append acc [] ys = refl
path_value-append acc (c ∷ xs) ys =
    path_value-append (if c == 47 then acc else acc * 10 + (c - 48)) xs ys

path_value-digit :
    (acc x : ℕ) (cs : Text) → path_value acc ((48 + x) ∷ cs) ≡ path_value (acc * 10 + x) cs
path_value-digit acc x cs =
    let e : (48 + x) - 48 ≡ x = omega arith in
    let n : (48 + x == 47) ≡ false = ground arith in rw (n, e) refl

pub path_value-digits : (fuel n : ℕ) → n < fuel → path_value 0 (digits fuel n) ≡ n
unfolding digits
path_value-digits zero n h = absurd (omega arith)
path_value-digits (suc fuel) n h = elim (Bool-cases (ltb n 10)) [
  | inl e ↦ rw (e, digits) (path_value-digit 0 n [] ∙ omega arith)
  | inr e ↦
      let big : 10 ≤ n = ground arith in
      let ih = path_value-digits fuel (n / 10) (omega arith) in
      rw (e, digits)
        (path_value-append 0 (digits fuel (n / 10)) ((48 + n % 10) ∷ [])
          ∙ path_value-digit (path_value 0 (digits fuel (n / 10))) (n % 10) []
          ∙ omega (arith, ih))
]

path_value-replicate : (k : ℕ) (cs : Text) → path_value 0 (replicate k 48 ++ cs) ≡ path_value 0 cs
path_value-replicate zero cs = refl
path_value-replicate (suc k) cs = path_value-replicate k cs

path_value-padded : (n : ℕ) → path_value 0 (padded n) ≡ n
unfolding padded
path_value-padded n =
    let text = digits (suc n) n in
    path_value-replicate (3 - length text) text ∙ path_value-digits (suc n) n (omega arith)

digits-small : (fuel n : ℕ) → n < 10 → digits (suc fuel) n ≡ (48 + n) ∷ []
unfolding digits
digits-small fuel n h = let e : ltb n 10 ≡ true = ground arith in rw (e, digits) refl

digits-large :
    (fuel n : ℕ) → 10 ≤ n → digits (suc fuel) n ≡ digits fuel (n / 10) ++ ((48 + n % 10) ∷ [])
unfolding digits
digits-large fuel n h = let e : ltb n 10 ≡ false = ground arith in rw (e, digits) refl

abbrev three : ℕ → ℕ → ℕ → Text
three a b c = a ∷ b ∷ c ∷ []

three-eq : (a b c i j k : ℕ) → a ≡ i → b ≡ j → c ≡ k → three a b c ≡ three i j k
three-eq a b c i j k p q r = rw (p, q, r) refl

padded-of :
    (n : ℕ) (text : Text)
    → digits (suc n) n ≡ text
    → padded n ≡ replicate (3 - length text) 48 ++ text
unfolding padded
padded-of n text e = rw e

digits-two :
    (fuel n : ℕ) → 10 ≤ n → n < 100 → digits (suc (suc fuel)) n ≡ (48 + n / 10) ∷ (48 + n % 10) ∷ []
digits-two fuel n l h =
    digits-large (suc fuel) n l ∙ rw (digits-small fuel (n / 10) (omega arith)) refl

digits-three :
    (fuel n : ℕ)
    → 100 ≤ n
    → n < 1000
    → digits (suc (suc (suc fuel))) n ≡ three (48 + n / 100) (48 + n / 10 % 10) (48 + n % 10)
digits-three fuel n l h =
    digits-large (suc (suc fuel)) n (omega arith)
    ∙ rw (digits-two fuel (n / 10) (omega arith) (omega arith)) (
        three-eq (48 + n / 10 / 10) (48 + n / 10 % 10) (48 + n % 10) (48 + n / 100) _ _
          (omega arith) refl refl)

-- A number below 1000 has its three digits.
padded-three : (n : ℕ) → n < 1000 → padded n ≡ three (48 + n / 100) (48 + n / 10 % 10) (48 + n % 10)
padded-three n h = elim (Bool-cases (ltb n 10)) [
  | inl e ↦
      padded-of n ((48 + n) ∷ []) (digits-small n n (ground arith))
      ∙ three-eq 48 48 (48 + n) _ _ _ (ground arith) (ground arith) (ground arith)
  | inr e ↦ elim (Bool-cases (ltb n 100)) [
    | inl f ↦
        let fuel : suc n ≡ suc (suc (n - 1)) = ground arith in
        padded-of n ((48 + n / 10) ∷ (48 + n % 10) ∷ [])
          (ap (λ k. digits k n) fuel ∙ digits-two (n - 1) n (ground arith) (ground arith))
        ∙ three-eq 48 (48 + n / 10) (48 + n % 10) _ _ _ (ground arith) (ground arith) refl
    | inr f ↦
        let fuel : suc n ≡ suc (suc (suc (n - 2))) = ground arith in
        padded-of n (three (48 + n / 100) (48 + n / 10 % 10) (48 + n % 10))
          (ap (λ k. digits k n) fuel ∙ digits-three (n - 2) n (ground arith) h)
  ]
]

path_value-three :
    (acc n : ℕ) (cs : Text)
    → n < 1000
    → path_value acc (padded n ++ cs) ≡ path_value (acc * 1000 + n) cs
path_value-three acc n cs h = rw (padded-three n h) (
    path_value-digit acc (n / 100) ((48 + n / 10 % 10) ∷ (48 + n % 10) ∷ cs)
    ∙ path_value-digit (acc * 10 + n / 100) (n / 10 % 10) ((48 + n % 10) ∷ cs)
    ∙ path_value-digit ((acc * 10 + n / 100) * 10 + n / 10 % 10) (n % 10) cs
    ∙ ap (λ k. path_value k cs) (omega arith))

length-padded : (n : ℕ) → n < 1000 → length (padded n) ≡ 3
length-padded n h = rw (padded-three n h)

-- The digits of the path that sequenceToPath makes are, with the slashes left out, the decimal
-- number of the sequence; so no two sequence numbers have the same path. Below 10 ^ 9 the path has
-- 11 characters.
pub path_value-sequence_to_path :
    (seq : ℕ)
    → (path_value 0 (sequence_to_path seq) ≡ seq)
      × (seq < 1000000000 → length (sequence_to_path seq) ≡ 11)
unfolding sequence_to_path
path_value-sequence_to_path seq =
    let a = seq / 1000000 in
    let b = seq / 1000 % 1000 in
    let c = seq % 1000 in
    let tail : Text = 47 ∷ (padded b ++ (47 ∷ padded c)) in
    let last : path_value (a * 1000 + b) (padded c) ≡ (a * 1000 + b) * 1000 + c =
      ap (path_value (a * 1000 + b)) (sym (append-nil (padded c)))
      ∙ path_value-three (a * 1000 + b) c [] (omega arith) in
    (
      path_value-append 0 (padded a) tail
          ∙ rw (path_value-padded a)
              (path_value-three a b (47 ∷ padded c) (omega arith) ∙ last ∙ omega arith),
      λ h.
          length-append (padded a) tail
          ∙ (let l = length-append (padded b) (47 ∷ padded c) in
              let la = length-padded a (omega arith) in
              let lb = length-padded b (omega arith) in
              let lc = length-padded c (omega arith) in omega arith),
    )
