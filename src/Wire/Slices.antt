-- ===== src/Wire/Slices.antt =====
-- `take_bytes` and length-prefixed slices.
use microdot.Base.{
  ℕ, zero, suc, ◌%◌, ◌^◌, ◌≤◌, ◌<◌, ◌≡◌, refl, ◌∷◌, [], ◌++◌, Bytes, length, length-append,
  length-take, length-drop, take-append_self, drop-append_self, take-append-drop, take, drop, ok,
  bind-eq-ok, arith, ap,
}
use microdot.Wire.{IsU64, encode_varint, decode_varint, take_bytes, take_delimited}
use microdot.Wire.Bounds.{decode_varint_takes, decode_varint-append}
use microdot.Wire.Varint.{decode-encode}
use native.Mathlib.Nat.{mod-eq_of_lt}

pub take_bytes_takes :
    (input : Bytes) (n : ℕ) (head rest : Bytes)
    → take_bytes input n ≡ ok (head, rest)
    → (length head ≡ n) × (length rest ≤ length input)
unfolding take_bytes
take_bytes_takes input n head rest e = ground (arith, length-take n input, length-drop n input)

-- The bytes that follow are left alone.
take_append_le : (n : ℕ) (xs ys : Bytes) → n ≤ length xs → take n (xs ++ ys) ≡ take n xs
take_append_le zero xs ys h = refl
take_append_le (suc n) [] ys h = absurd (omega arith)
take_append_le (suc n) (x ∷ xs) ys h = ap (◌∷◌ x) (take_append_le n xs ys (omega arith))

drop_append_le : (n : ℕ) (xs ys : Bytes) → n ≤ length xs → drop n (xs ++ ys) ≡ drop n xs ++ ys
drop_append_le zero xs ys h = refl
drop_append_le (suc n) [] ys h = absurd (omega arith)
drop_append_le (suc n) (x ∷ xs) ys h = drop_append_le n xs ys (omega arith)

pub take_bytes-append :
    (input more : Bytes) (n : ℕ) (head rest : Bytes)
    → take_bytes input n ≡ ok (head, rest)
    → take_bytes (input ++ more) n ≡ ok (head, rest ++ more)
unfolding take_bytes
take_bytes-append input more n head rest e =
    ground
      (arith, length-append input more, take_append_le n input more, drop_append_le n input more)

pub take_bytes_self : (x rest : Bytes) → take_bytes (x ++ rest) (length x) ≡ ok (x, rest)
unfolding take_bytes
take_bytes_self x rest =
    ground (arith, length-append x rest, take-append_self x rest, drop-append_self x rest)

-- A prefix of fixed size, as the readers take it.
pub take_bytes_takes_all :
    (input : Bytes) (n : ℕ) (head rest : Bytes)
    → take_bytes input n ≡ ok (head, rest)
    → (length head ≡ n) × (length rest ≤ length input) × (input ≡ head ++ rest)
unfolding take_bytes
take_bytes_takes_all input n head rest e =
    let (a, b) = take_bytes_takes input n head rest e in
    (a, b, ground (arith, take-append-drop n input))

module _ (w : ℕ) where
  pub take_delimited_takes :
      (input head rest : Bytes)
      → take_delimited w input ≡ ok (head, rest)
      → length rest < length input
  unfolding take_delimited
  take_delimited_takes input head rest e =
      let ((len, mid), r, t) = bind-eq-ok (decode_varint input) _ e in
      omega (
        arith,
        (decode_varint_takes input len mid r).1,
        (take_bytes_takes mid (len % 2 ^ w) head rest t).1,
      )

  pub take_delimited-append :
      (input more head rest : Bytes)
      → take_delimited w input ≡ ok (head, rest)
      → take_delimited w (input ++ more) ≡ ok (head, rest ++ more)
  unfolding take_delimited
  take_delimited-append input more head rest e =
      let ((len, mid), r, t) = bind-eq-ok (decode_varint input) _ e in
      rw (decode_varint-append input more len mid r)
        (take_bytes-append mid more (len % 2 ^ w) head rest t)

  -- A slice behind its length is read back, if the length fits a u64 and a `usize`.
  pub take_delimited-encode :
      (x rest : Bytes)
      → IsU64 (length x)
      → length x < 2 ^ w
      → take_delimited w (encode_varint (length x) ++ (x ++ rest)) ≡ ok (x, rest)
  unfolding take_delimited
  take_delimited-encode x rest h fits =
      rw (decode-encode (length x) (x ++ rest) h, mod-eq_of_lt fits) (take_bytes_self x rest)
