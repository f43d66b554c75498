-- ===== src/Bytes/Words.antt =====
-- A word that was written in little-endian order is read back from any buffer that holds it.
use native.Mathlib.Nat.{pow-suc}
use gpsxdb.Prelude.{
  ℕ, zero, suc, ◌+◌, ◌*◌, ◌/◌, ◌^◌, ◌<◌, ◌≡◌, refl, sym, ap, ◌∙◌, ◌∷◌, ◌++◌, arith, get_or, drop,
  get_or-drop, drop-drop,
}
use gpsxdb.Bytes.{Bytes, write_le32, write_le, read_le}

-- Reading at `pos` is reading at 0 of what starts there.
pub read_le-drop : (k : ℕ) (bs : Bytes) (pos : ℕ) → read_le k bs pos ≡ read_le k (drop pos bs) 0
unfolding read_le
read_le-drop zero bs pos = refl
read_le-drop (suc k) bs pos =
    let first : get_or bs pos 0 ≡ get_or (drop pos bs) 0 0 =
      (let e : pos + 0 ≡ pos = omega arith in rw e at (get_or-drop bs pos 0 0)) in
    let rest : read_le k bs (pos + 1) ≡ read_le k (drop pos bs) (0 + 1) =
      read_le-drop k bs (pos + 1)
      ∙ ap (λ l. read_le k l 0) (drop-drop bs pos 1)
      ∙ sym (read_le-drop k (drop pos bs) (0 + 1)) in
    rw (first, rest)

read_le-cons : (k b : ℕ) (bs : Bytes) → read_le (suc k) (b ∷ bs) 0 ≡ b + 256 * read_le k bs 0
unfolding read_le
read_le-cons k b bs = rw (read_le-drop k (b ∷ bs) (0 + 1))

read_le-write_le_zero :
    (k v : ℕ) (rest : Bytes) → v < 256 ^ k → read_le k (write_le k v ++ rest) 0 ≡ v
unfolding write_le
read_le-write_le_zero zero v rest h = unfold read_le in omega arith
read_le-write_le_zero (suc k) v rest h =
    let small : v < 256 ^ k * 256 = rw pow-suc at h in
    rw (read_le-cons, read_le-write_le_zero k (v / 256) rest (omega arith)) (omega arith)

pub read_le-write_le :
    (k v : ℕ) (bs : Bytes) (pos : ℕ) (rest : Bytes)
    → v < 256 ^ k
    → drop pos bs ≡ write_le k v ++ rest
    → read_le k bs pos ≡ v
read_le-write_le k v bs pos rest h e =
    read_le-drop k bs pos ∙ ap (λ l. read_le k l 0) e ∙ read_le-write_le_zero k v rest h

-- The two ways to write a 32-bit word agree.
pub write_le32-eq : (v : ℕ) → write_le32 v ≡ write_le 4 v
unfolding write_le32 write_le
write_le32-eq v = ground arith
