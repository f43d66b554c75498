-- ===== src/Wkb/Cursor/Laws.antt =====
-- What a cursor reads, when the bytes that it stands at are known, and how far reads move it.
use gpsxdb.Prelude.{
  ℕ, suc, ◌+◌, ◌^◌, ◌<◌, ◌≡◌, refl, ap, ◌∙◌, false, [], ◌∷◌, ◌++◌, arith, length, get_or, drop,
  get_or-drop, drop-drop, length-drop, drop-append_self, length-append, ltb,
}
use gpsxdb.Bytes.{Bytes, Double, write_le, length-write_le, write_le32}
use gpsxdb.Bytes.Words.{read_le-write_le}
use gpsxdb.Wkb.Cursor.{Cursor, start, u8, u32, f64}

-- The cursor has not failed, and the bytes from its position on are `bs`.
pub record At (c : Cursor) (bs : Bytes) : Type 0 where
  pub fine : c.failed ≡ false
  pub ahead : drop c.pos c.bytes ≡ bs

pub start-At : (bs : Bytes) → At (start bs) bs
unfolding start
start-At bs = record { fine = refl; ahead = refl }

module _ (c : Cursor) (xs rest : Bytes) where
  -- What lies ahead fits into the buffer.
  room :
      (k : ℕ)
      → length xs ≡ suc k
      → drop c.pos c.bytes ≡ xs ++ rest
      → ltb (length c.bytes) (c.pos + suc k) ≡ false
  room k l e = ground (arith, length-drop c.pos c.bytes, ap length e, length-append xs rest)

  moved : (k : ℕ) → length xs ≡ k → At c (xs ++ rest) → At (record c { pos = c.pos + k }) rest
  moved k l h = record {
    fine = h.fine;
    ahead = rw (← l) (
        drop-drop c.bytes c.pos (length xs)
        ∙ ap (drop (length xs)) h.ahead
        ∙ drop-append_self xs rest);
  }

-- The item `k` places after the position.
peek : (c : Cursor) (bs : Bytes) (k : ℕ) → At c bs → get_or c.bytes (c.pos + k) 0 ≡ get_or bs k 0
peek c bs k h = get_or-drop c.bytes c.pos k 0 ∙ ap (λ l. get_or l k 0) h.ahead

peek_first : (c : Cursor) (bs : Bytes) → At c bs → get_or c.bytes c.pos 0 ≡ get_or bs 0 0
peek_first c bs h = let e : c.pos + 0 ≡ c.pos = omega arith in rw e at (peek c bs 0 h)

pub u8-At :
    (c : Cursor) (b : ℕ) (rest : Bytes) → At c (b ∷ rest) → ((u8 c).0 ≡ b) × At (u8 c).1 rest
unfolding u8
u8-At c b rest h =
    rw (room c (b ∷ []) rest 0 refl h.ahead)
      (peek_first c (b ∷ rest) h, moved c (b ∷ []) rest 1 refl h)

pub u32-At :
    (c : Cursor) (v : ℕ) (rest : Bytes)
    → v < 2 ^ 32
    → At c (write_le32 v ++ rest)
    → ((u32 c).0 ≡ v) × At (u32 c).1 rest
unfolding u32 write_le32
u32-At c v rest small h =
    let bs = write_le32 v ++ rest in
    rw (room c (write_le32 v) rest 3 refl h.ahead) (
      rw (peek_first c bs h, peek c bs 1 h, peek c bs 2 h, peek c bs 3 h) (omega arith),
      moved c (write_le32 v) rest 4 refl h,
    )

pub f64-At :
    (c : Cursor) (v : Double) (rest : Bytes)
    → v < 2 ^ 64
    → At c (write_le 8 v ++ rest)
    → ((f64 c).0 ≡ v) × At (f64 c).1 rest
unfolding f64
f64-At c v rest small h = rw (room c (write_le 8 v) rest 7 (length-write_le 8 v) h.ahead) (
  read_le-write_le 8 v c.bytes c.pos rest small h.ahead,
  moved c (write_le 8 v) rest 8 (length-write_le 8 v) h,
)
