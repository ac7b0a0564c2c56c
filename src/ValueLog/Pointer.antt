-- ===== src/ValueLog/Pointer.antt =====
-- Value pointers: their order and their bytes.
use badger_rs.Common.{ℕ, ◌^◌, ◌<◌}
use badger_rs.Common.{◌≡◌, refl, ◌↔◌, ◌⊎◌, inl, inr, arith}
use badger_rs.Common.{true, false, some}
use badger_rs.Common.{◌++◌, append_assoc}
use badger_rs.Common.{◌==◌, Bool-cases}
use badger_rs.Common.Bytes.{Bytes, ByteOrder}
use badger_rs.ValueLog.{ValuePointer, less, enc_pointer, dec_pointer}

-- The order by file, then by offset, then by length.
abbrev pub Earlier : ValuePointer → ValuePointer → Type 0
Earlier p q =
    (p.fid < q.fid)
    ⊎ ((p.fid ≡ q.fid) × ((p.offset < q.offset) ⊎ ((p.offset ≡ q.offset) × (p.len < q.len))))

-- `less` is the order by file, then by offset, then by length.
pub less_iff : (p q : ValuePointer) → (less p q ≡ true) ↔ Earlier p q
unfolding less
less_iff p q = (λ h. forth h, λ h. back h)
  where
    forth : less p q ≡ true → Earlier p q
    forth h = elim (Bool-cases (p.fid == q.fid)) [
      | inr e ↦ inl (ground (arith, e, h))
      | inl e ↦ elim (Bool-cases (p.offset == q.offset)) [
        | inr o ↦ inr (ground (arith, e), inl (ground (arith, e, o, h)))
        | inl o ↦ inr (ground (arith, e), inr (ground (arith, o), ground (arith, e, o, h)))
      ]
    ]

    back : Earlier p q → less p q ≡ true
    back (inl l) = ground (arith, l)
    back (inr (e, inl l)) = ground (arith, e, l)
    back (inr (e, inr (o, l))) = ground (arith, e, o, l)

pointer_eq :
    (a b c x y z : ℕ)
    → a ≡ x
    → b ≡ y
    → c ≡ z
    → ◌≡◌ {A = ValuePointer}
        (record { fid = a; len = b; offset = c })
        (record { fid = x; len = y; offset = z })
pointer_eq a b c x y z e f g = rw (e, f, g) refl

-- `less` is a strict order on value pointers in which any two different pointers are ordered.
pub less_order :
    (p q r : ValuePointer)
    → (less p p ≡ false)
      × (less p q ≡ true → less q r ≡ true → less p r ≡ true)
      × (less p q ≡ false → less q p ≡ false → p ≡ q)
unfolding less
less_order p q r = (
  ground arith,
  (λ h k. ground (arith, h, k)),
  λ h k.
      let f : p.fid ≡ q.fid = ground (arith, h, k) in
      let o : p.offset ≡ q.offset = ground (arith, h, k) in
      let l : p.len ≡ q.len = ground (arith, h, k) in
      pointer_eq p.fid p.len p.offset q.fid q.len q.offset f l o,
)

module _ ⦃bo : ByteOrder⦄ where
  -- Reading back an encoded value pointer whose fields fit four bytes gives the pointer, and what
  -- follows it.
  pub dec-enc_pointer :
      (p : ValuePointer) (rest : Bytes)
      → p.fid < 256 ^ 4
      → p.len < 256 ^ 4
      → p.offset < 256 ^ 4
      → dec_pointer (enc_pointer p ++ rest) ≡ some (p, rest)
  unfolding dec_pointer enc_pointer
  dec-enc_pointer p rest f l o =
      let r2 : Bytes = bo.write_uint 4 p.offset ++ rest in
      let r1 : Bytes = bo.write_uint 4 p.len ++ r2 in
      simp append_assoc (
        rw (bo.read-write 4 p.fid r1 f, bo.read-write 4 p.len r2 l, bo.read-write 4 p.offset rest o)
          refl)
