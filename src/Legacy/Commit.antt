-- ===== src/Legacy/Commit.antt =====
-- What `legacy_commit` writes.
use nvram.Base.{
  ℕ, ◌+◌, ◌-◌, ◌<◌, ◌≤◌, ◌≡◌, ◌⊎◌, inl, inr, sym, ap, ◌∙◌, false, [], ◌∷◌, ◌++◌, arith, length,
  length-append, take_all, append_assoc, append-nil, Bytes, ok, err, pure, ◌>>◌, >>=-cong,
  Option-cases, All, Lacks, einval, ltb, Result-cases,
}
use native.Mathlib.Nat.{zero-add, add-sub_cancel}
use nvram.Entry.{Entry, Entries, Runtime, allocate}
use nvram.Device.{Device}
use nvram.Legacy.{find, row, row_size, needed, put_rows, int_max, write_rows, legacy_commit}
use nvram.Legacy.Scan.{find-absent, find-none}

-- An entry that the format can take: no byte that ends a name or a row stands where it should
-- not, and its row is no longer than `snprintf` prints.
pub record IsPlain (e : Entry) : Type 0 where
  pub key_lacks_eq : Lacks b'=' e.key
  pub key_lacks_newline : Lacks b'\n' e.key
  pub value_lacks_newline : Lacks b'\n' e.value
  pub row_le : length (row e) ≤ int_max

-- All rows, one after the other.
unfoldable pub rows : Entries → Bytes
rows [] = []
rows (e ∷ es) = row e ++ rows es

row_size-IsPlain : (e : Entry) → IsPlain e → row_size e ≡ ok (length (row e))
unfolding row_size
row_size-IsPlain e p = ground (
  arith,
  find-absent b'=' e.key p.key_lacks_eq,
  find-absent b'\n' e.key p.key_lacks_newline,
  find-absent b'\n' e.value p.value_lacks_newline,
)

row_size_sound : (e : Entry) (n : ℕ) → row_size e ≡ ok n → IsPlain e
unfolding row_size
row_size_sound e n h = ground (
  arith,
  find-none b'=' e.key,
  find-none b'\n' e.key,
  find-none b'\n' e.value,
  Option-cases (find e.key b'='),
  Option-cases (find e.key b'\n'),
  Option-cases (find e.value b'\n'),
)

row_size-einval : (e : Entry) (c : ℕ) → row_size e ≡ err c → c ≡ einval
unfolding row_size
row_size-einval e c h = ground arith

-- Any other entry is refused with -EINVAL.
row_size-cases : (e : Entry) → IsPlain e ⊎ (row_size e ≡ err einval)
row_size-cases e = elim (Result-cases (row_size e)) [
  | inl (n, h) ↦ inl (row_size_sound e n h)
  | inr (c, h) ↦ inr (h ∙ ap err (row_size-einval e c h))
]

needed-rows : (es : Entries) (n : ℕ) → All IsPlain es → needed es n ≡ ok (n + length (rows es))
unfolding needed rows
needed-rows [] n p = ap ok (omega arith)
needed-rows (e ∷ es) n (p, ps) =
    rw (row_size-IsPlain e p, needed)
      (needed-rows es (n + length (row e)) ps
        ∙ ap ok (omega (arith, length-append (row e) (rows es))))

-- No row is cut where `n` bytes and the null byte are left.
put_rows-rows :
    (size : ℕ) (es : Entries) (pos : ℕ) (out : Bytes)
    → All IsPlain es
    → pos + length (rows es) < size
    → put_rows size es pos out ≡ ok (out ++ rows es)
unfolding put_rows rows
put_rows-rows size [] pos out p h = ap ok (sym (append-nil out))
put_rows-rows size (e ∷ es) pos out (p, ps) h =
    let fits : ltb int_max (length (row e)) ≡ false = ground (arith, p.row_le) in
    rw (fits, put_rows)
      (rw (take_all (size - pos - 1) (row e) (omega (arith, length-append (row e) (rows es)))) (
        put_rows-rows size es (pos + length (row e)) (out ++ row e) ps
          (omega (arith, length-append (row e) (rows es)))
        ∙ ap ok (append_assoc out (row e) (rows es))))

needed_refused : (es : Entries) (n : ℕ) → ¬ All IsPlain es → needed es n ≡ err einval
unfolding needed
needed_refused [] n p = absurd (p tt)
needed_refused (e ∷ es) n p = elim (row_size-cases e) [
  | inl plain ↦
      rw (row_size-IsPlain e plain, needed)
        (needed_refused es (n + length (row e)) (λ ps. p (plain, ps)))
  | inr refused ↦ rw (refused, needed)
]

module _ {World : Type 0} (R : Runtime World) (D : Device World) where
  write_rows-rows :
      (priv : D.Priv) (es : Entries) (w : World)
      → All IsPlain es
      → write_rows R D priv es (length (rows es) + 1) w ≡ (do D.write priv (rows es); pure priv) w
  unfolding write_rows
  write_rows-rows priv es w p = rw (
    put_rows-rows (length (rows es) + 1) es 0 [] p (omega arith),
    add-sub_cancel (length (rows es)) 1,
    take_all (length (rows es)) (rows es) (omega arith),
  )

  -- Plain entries are written out whole, row after row, by one call of the device.
  pub legacy_commit-rows :
      (priv : D.Priv) (es : Entries) (w : World)
      → All IsPlain es
      → legacy_commit R D priv es w
        ≡ (do allocate R (length (rows es) + 1); D.write priv (rows es); pure priv) w
  unfolding legacy_commit
  legacy_commit-rows priv es w p =
      rw (needed-rows es 0 p, zero-add (length (rows es)))
        (>>=-cong (allocate R (length (rows es) + 1)) _ _ w (λ _ v. write_rows-rows priv es v p))

  -- Where some entry is not plain, nothing is allocated or written, and the result is
  -- EINVAL.
  pub legacy_commit_refused :
      (priv : D.Priv) (es : Entries) (w : World)
      → ¬ All IsPlain es
      → legacy_commit R D priv es w ≡ (err einval, w)
  unfolding legacy_commit
  legacy_commit_refused priv es w p = rw (needed_refused es 0 p)
