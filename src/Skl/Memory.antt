-- ===== src/Skl/Memory.antt =====
-- What is put into the arena stays there.
use badger_rs.Common.{ℕ, zero, suc, ◌+◌, ◌-◌, ◌^◌, ◌≤◌, ◌<◌}
use badger_rs.Common.{◌≡◌, refl, sym, ap, ◌∙◌, inl, inr, arith}
use badger_rs.Common.{true, some}
use badger_rs.Common.{[], ◌∷◌, ◌++◌, append_assoc}
use badger_rs.Common.{ltb, Bool-cases}
use badger_rs.Common.{none-some, bind-some, lt→ltb, u16, u32}
use badger_rs.Common.{length, take, drop}
use badger_rs.Common.{length-append, take-drop, length-take}
use badger_rs.Common.{drop-length, slice, slice-at, some_inj}
use badger_rs.Common.Bytes.{Bytes, ByteOrder, overwrite}
use mathlib.Core.Path.{subst}
use badger_rs.Value.{ValueStruct, into, from, size}
use badger_rs.Value
use badger_rs.Value.RoundTrip.{from-into, length-into}
use badger_rs.Skl.{Arena, free_count, alloc_rev, put_key, get_key, put_val, get_val}

-- The free space lies between the two ends, behind offset 0, and 32 bits count the memory.
pub record IsArena (a : Arena) : Type 0 where
  pub sized : length a.bytes ≡ a.cap
  pub behind_zero : 0 < a.head
  pub ends : a.head ≤ a.tail
  pub inside : a.tail ≤ a.cap
  pub counted : a.cap < 2 ^ 32

-- What `put_key` did when it answered.
record Put (a : Arena) (key : Bytes) (out : ℕ × Arena) : Type 0 where
  room : a.head + length key < a.tail
  offset : out.0 ≡ u32 (a.tail - length key)
  arena :
      out.1
      ≡ record a { tail = a.tail - length key; bytes = overwrite (a.tail - length key) key a.bytes }

put_key-Put : (a : Arena) (key : Bytes) (out : ℕ × Arena) → put_key a key ≡ some out → Put a key out
unfolding put_key alloc_rev free_count
put_key-Put a key out e = elim (Bool-cases (ltb a.head a.tail)) [
  | inr f ↦ absurd (none-some out (sym (rw f refl) ∙ e))
  | inl t ↦ elim (Bool-cases (ltb (length key) (a.tail - a.head))) [
    | inr f ↦ absurd (none-some out (sym (rw (t, f) refl) ∙ e))
    | inl u ↦
        let made = some_inj (sym (rw (t, u) refl) ∙ e) in
        record {
          room = ground (arith, t, u);
          offset = sym (ap (λ p. p.0) made);
          arena = sym (ap (λ p. p.1) made);
        }
  ]
]

-- With room for the key, `put_key` answers.
pub put_key-room :
    (a : Arena) (key : Bytes)
    → IsArena a
    → a.head + length key < a.tail
    → (a' : Arena) × ((put_key a key ≡ some (a.tail - length key, a'))
        × ((a'.head ≡ a.head) × (a'.tail ≡ a.tail - length key)))
unfolding put_key alloc_rev free_count
put_key-room a key i room =
    let start = a.tail - length key in
    let there : ltb a.head a.tail ≡ true = lt→ltb _ _ (omega (arith, room)) in
    let free : ltb (length key) (a.tail - a.head) ≡ true = lt→ltb _ _ (omega (arith, room)) in
    let here : u32 start ≡ start = omega (arith, i.inside, i.counted) in
    (
      record a { tail = start; bytes = overwrite start key a.bytes },
      (rw (there, free, here) refl, (refl, refl)),
    )

length-overwrite :
    (p : ℕ) (key file : Bytes)
    → p + length key ≤ length file
    → length (overwrite p key file) ≡ length file
length-overwrite p key file k =
    let end = p + length key in
    omega (
      arith,
      length-append (take p file) (key ++ drop end file),
      length-append key (drop end file),
      length-take p file (omega (arith, k)),
      length-append (take end file) (drop end file),
      ap length (take-drop end file),
      length-take end file (omega (arith, k)),
    )

-- Reading behind what was overwritten.
slice_behind :
    (p off n : ℕ) (key file : Bytes)
    → p + length key ≤ off
    → p + length key ≤ length file
    → slice off n (overwrite p key file) ≡ slice off n file
slice_behind p off n key file h k =
    let kept = take p file in
    let end = p + length key in
    let i = off - end in
    let same_length = length-overwrite p key file k in
    let there : off ≡ end + i = omega (arith, h) in
    let first : drop off (overwrite p key file) ≡ drop i (drop end file) =
      ap (λ j. drop j (overwrite p key file)) there
      ∙ ap (drop (end + i)) (sym (append_assoc kept key (drop end file)))
      ∙ drop_past end (kept ++ key) i (drop end file)
          (omega (arith, length-append kept key, length-take p file (omega (arith, k)))) in
    let second : drop off file ≡ drop i (drop end file) =
      ap (λ j. drop j file) there ∙ sym (drop_drop end i file) in
    rw (same_length, first, second) refl
  where
    drop_drop : (a b : ℕ) (xs : Bytes) → drop b (drop a xs) ≡ drop (a + b) xs
    drop_drop zero b xs = let z : 0 + b ≡ b = omega arith in rw z refl
    drop_drop (suc a) zero [] = let z : suc a + 0 ≡ suc (a + 0) = omega arith in rw z refl
    drop_drop (suc a) (suc b) [] =
        let z : suc a + suc b ≡ suc (a + suc b) = omega arith in rw z refl
    drop_drop (suc a) b (x ∷ xs) =
        let z : suc a + b ≡ suc (a + b) = omega arith in rw z (drop_drop a b xs)

    drop_past :
        (t : ℕ) (pre : Bytes) (i : ℕ) (ys : Bytes)
        → length pre ≡ t
        → drop (t + i) (pre ++ ys) ≡ drop i ys
    drop_past t pre i ys e = sym (drop_drop t i (pre ++ ys)) ∙ ap (drop i) (drop-length t pre ys e)

-- A key of fewer than 2^16 bytes that was put into the arena is read back at its offset, what stood
-- behind the old end of the free space is read as before, and the arena keeps its shape.
pub get_key-put_key :
    (a a' : Arena) (key : Bytes) (offset : ℕ)
    → IsArena a
    → length key < 2 ^ 16
    → put_key a key ≡ some (offset, a')
    → IsArena a'
      × ((get_key a' offset (length key) ≡ some key)
          × ((off n : ℕ) → a.tail ≤ off → get_key a' off n ≡ get_key a off n))
unfolding get_key
get_key-put_key a a' key offset i short e =
    let p = put_key-Put a key (offset, a') e in
    let start = a.tail - length key in
    let fits : start + length key ≤ length a.bytes = omega (arith, p.room, i.sized, i.inside) in
    let here : offset ≡ start = p.offset ∙ omega (arith, i.inside, i.counted) in
    let kept : length (take start a.bytes) ≡ start =
      length-take start a.bytes (omega (arith, fits)) in
    let count : u16 (length key) ≡ length key = omega (arith, short) in
    let bytes : a'.bytes ≡ overwrite start key a.bytes = ap (λ x. x.bytes) p.arena in
    (
      subst IsArena (sym p.arena) (record {
        sized = length-overwrite start key a.bytes fits ∙ i.sized;
        behind_zero = i.behind_zero;
        ends = omega (arith, p.room);
        inside = omega (arith, i.inside);
        counted = i.counted;
      }),
      (
        rw (bytes, here, count)
            (slice-at start (length key) _ (take start a.bytes) key
              (drop (start + length key) a.bytes) refl (sym kept) refl),
        λ off n h.
            rw bytes (slice_behind start off (u16 n) key a.bytes (omega (arith, h, p.room)) fits),
      ),
    )

module _ ⦃bo : ByteOrder⦄ where
  -- A value that was put into the arena is read back from its offset and size, if its fields are in
  -- range and its bytes can be counted in 16 bits.
  pub get_val-put_val :
      (a a' : Arena) (v : ValueStruct) (offset n : ℕ)
      → IsArena a
      → Value.InRange v
      → size v < 2 ^ 16
      → put_val a v ≡ some ((offset, n), a')
      → get_val a' offset n ≡ some v
  unfolding put_val get_val
  get_val-put_val a a' v offset n i r f e =
      let (made, (stored, same)) = bind-some (put_key a (into v)) _ ((offset, n), a') e in
      let short : length (into v) < 2 ^ 16 = omega (arith, length-into v, f) in
      let got = (get_key-put_key a made.1 (into v) made.0 i short stored).1.0 in
      let count : u16 (length (into v)) ≡ length (into v) = omega (arith, length-into v, f) in
      let read : get_val made.1 made.0 (u16 (length (into v))) ≡ some v =
        rw count (rw got (from-into v r)) in
      subst (λ (t : (ℕ × ℕ) × Arena). get_val t.1 t.0.0 t.0.1 ≡ some v) (some_inj same) read
