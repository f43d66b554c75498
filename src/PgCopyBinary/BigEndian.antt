-- ===== src/PgCopyBinary/BigEndian.antt =====
-- Words in network byte order.
use gpsxdb.Prelude.{
  ℕ, zero, suc, ◌+◌, ◌/◌, ◌%◌, ◌^◌, ◌≤◌, ◌<◌, ◌≡◌, refl, sym, ap, ◌∙◌, [], ◌∷◌, ◌++◌, length, drop,
  drop-drop, get_or, get_or-drop, arith, length-drop,
}
use native.Mathlib.Nat.{mod-lt, div-add-mod', one-le-pow}
use gpsxdb.Bytes.{Bytes}
use gpsxdb.PgCopyBinary.{Reader, read_be}
use gpsxdb.PgCopyBinary.Stream.{Holds, Has, ahead, get_or-append_lt}

-- As `int2send`, `int4send` and `int8send` of the server write them.
unfoldable pub write_be : ℕ → ℕ → Bytes
write_be zero v = []
write_be (suc k) v = v / 256 ^ k ∷ write_be k (v % 256 ^ k)

pub length-write_be : (k v : ℕ) → length (write_be k v) ≡ k
unfolding write_be
length-write_be zero v = refl
length-write_be (suc k) v = omega (arith, length-write_be k (v % 256 ^ k))

read_be-drop : (k : ℕ) (bs : Bytes) (pos : ℕ) → read_be k bs pos ≡ read_be k (drop pos bs) 0
unfolding read_be
read_be-drop zero bs pos = refl
read_be-drop (suc k) bs pos =
    let first : get_or bs pos 0 ≡ get_or (drop pos bs) 0 0 =
      (let e : pos + 0 ≡ pos = omega arith in rw e at (get_or-drop bs pos 0 0)) in
    let rest : read_be k bs (pos + 1) ≡ read_be k (drop pos bs) (0 + 1) =
      read_be-drop k bs (pos + 1)
      ∙ ap (λ l. read_be k l 0) (drop-drop bs pos 1)
      ∙ sym (read_be-drop k (drop pos bs) (0 + 1)) in
    rw (first, rest)

read_be-append :
    (k : ℕ) (xs ys : Bytes) (pos : ℕ)
    → pos + k ≤ length xs
    → read_be k (xs ++ ys) pos ≡ read_be k xs pos
unfolding read_be
read_be-append zero xs ys pos h = refl
read_be-append (suc k) xs ys pos h =
    rw (get_or-append_lt xs ys pos 0 (omega arith), read_be-append k xs ys (pos + 1) (omega arith))

-- Reading from the buffer is reading from what comes.
pub read_be-Holds :
    (k : ℕ) (r : Reader) (pre bs : Bytes)
    → Holds r pre bs
    → Has r k
    → read_be k r.buf r.pos ≡ read_be k bs 0
read_be-Holds k r pre bs h has =
    read_be-drop k r.buf r.pos
    ∙ sym (read_be-append k (drop r.pos r.buf) _ 0 (omega (arith, length-drop r.pos r.buf)))
    ∙ ap (λ l. read_be k l 0) (ahead r pre bs h)

pub read_be-write_be :
    (k v : ℕ) (rest : Bytes) → v < 256 ^ k → read_be k (write_be k v ++ rest) 0 ≡ v
unfolding write_be read_be
read_be-write_be zero v rest h = omega arith
read_be-write_be (suc k) v rest h =
    let tail = write_be k (v % 256 ^ k) ++ rest in
    let low : read_be k (v / 256 ^ k ∷ tail) (0 + 1) ≡ v % 256 ^ k =
      read_be-drop k (v / 256 ^ k ∷ tail) (0 + 1)
      ∙ read_be-write_be k (v % 256 ^ k) rest
          (mod-lt v (omega (arith, one-le-pow k 256 (omega arith)))) in
    rw low (div-add-mod' v (256 ^ k))
